-- ===== src/Sort/Radix.antt =====
-- `mos_radixsort` of demo/spcam/sdfred20100528/mosaic/libsrc/sub_sort.c. The array `count` of 257
-- numbers is static: a call finds what the last one left in it.
use pwrake.Prelude.{
  ℕ, zero, suc, ◌+◌, ◌-◌, ◌*◌, ◌/◌, ◌%◌, ◌^◌, List, ◌++◌, Option, none, some, get_elem?, write,
  take, drop, replicate, ◌>>=◌,
}
pub mod Buckets
pub mod Placed
pub mod Sorted

-- `(a[i]>>shift)%256`
abbrev pub byte_at : ℕ → ℕ → ℕ
byte_at shift x = x / 2 ^ shift % 256

-- `--c` on an index: below 0 it is outside every array.
abbrev pub before : ℕ → Option ℕ
before zero = none
before (suc c) = some c

-- `memset(count,0,sizeof(int)*nbin);`
unfoldable pub reset : List ℕ → List ℕ
reset count = replicate 256 0 ++ drop 256 count

-- `for (i=0;i<n;i++) count[(a[i]>>shift)%256]++;` with the rounds left.
unfoldable pub tally : ℕ → ℕ → ℕ → List ℕ → List ℕ → Option (List ℕ)
tally shift zero i a count = some count
tally shift (suc left) i a count = do
  x ← get_elem? a i
  c ← get_elem? count (byte_at shift x)
  counted ← write count (byte_at shift x) (c + 1)
  tally shift left (suc i) a counted

-- `for (i=1; i<=nbin;i++) count[i]+=count[i-1];` with the rounds left.
unfoldable pub cumulate : ℕ → ℕ → List ℕ → Option (List ℕ)
cumulate zero i count = some count
cumulate (suc left) i count = do
  c ← get_elem? count i
  below ← get_elem? count (i - 1)
  summed ← write count i (c + below)
  cumulate left (suc i) summed

-- `for (i=n-1;i>=0;i--) work[--count[(a[i]>>shift)%256]]=a[i];` with `i + 1`.
unfoldable pub scatter : ℕ → ℕ → List ℕ → List ℕ → List ℕ → Option (List ℕ × List ℕ)
scatter shift zero a count work = some (count, work)
scatter shift (suc i) a count work = do
  x ← get_elem? a i
  c ← get_elem? count (byte_at shift x)
  p ← before c
  counted ← write count (byte_at shift x) p
  placed ← write work p x
  scatter shift i a counted placed

-- A round of the loop over `j`, with `a`, `count` and `work`.
unfoldable pub distribute : ℕ → ℕ → List ℕ → List ℕ → List ℕ → Option (List ℕ × List ℕ × List ℕ)
unfolding reset tally cumulate scatter
distribute shift n a count work = do
  tallied ← tally shift n 0 a (reset count)
  summed ← cumulate 256 1 tallied
  end ← scatter shift n a summed work
  some (take n end.1 ++ drop n a, end.0, end.1)

-- `for (j=0;j<length;j++)` with the rounds left.
unfoldable pub rounds : ℕ → ℕ → ℕ → List ℕ → List ℕ → List ℕ → Option (List ℕ × List ℕ × List ℕ)
unfolding distribute
rounds zero j n a count work = some (a, count, work)
rounds (suc left) j n a count work = do
  s ← distribute (j * 8) n a count work
  rounds left (suc j) n s.0 s.1 s.2

-- `work` is what `malloc` returned: `n` words of any content. The result is `a` and `count`.
unfoldable pub mos_radixsort : ℕ → List ℕ → List ℕ → List ℕ → Option (List ℕ × List ℕ)
unfolding rounds
mos_radixsort n a count work = do s ← rounds 4 0 n a count work; some (s.0, s.1)
