-- ===== src/Imc/Iraf.antt =====
-- The strings of an IRAF header: `imencs` and `imdecs` of demo/spcam/sdfred20100528/mosaic/imc/imc.c. Both
-- strings lie in one memory, since `imencs` may be called with the same pointer twice.
use pwrake.Prelude.{
  ℕ, zero, suc, ◌+◌, ◌*◌, List, Option, none, some, get_elem?, write, ◌==◌, if◌then◌else◌, ◌>>=◌,
}
pub mod Coded

-- `for(i=0;i<79;i++) if( s[i] == '\0' ) break;` with the rounds left.
unfoldable pub end_of : ℕ → ℕ → ℕ → List ℕ → Option ℕ
end_of zero i s mem = some i
end_of (suc left) i s mem =
    let later = end_of left (suc i) s mem in
    do c ← get_elem? mem (s + i); if c == 0 then some i else later

-- `for (j=i;j>=0;j--)`, with `j + 1`.
unfoldable pub spread : ℕ → ℕ → ℕ → List ℕ → Option (List ℕ)
spread ims s zero mem = some mem
spread ims s (suc j) mem = do
  cleared ← write mem (ims + 2 * j) 0
  c ← get_elem? cleared (s + j)
  put ← write cleared (ims + 2 * j + 1) c
  spread ims s j put

unfoldable pub imencs : ℕ → ℕ → List ℕ → Option (List ℕ)
unfolding end_of spread
imencs ims s mem = do i ← end_of 79 0 s mem; spread ims s (suc i) mem

-- The same with 80 for 79 and with one more pair of NULs.
unfoldable pub imencs0 : ℕ → ℕ → List ℕ → Option (List ℕ)
unfolding end_of spread
imencs0 ims s mem = do
  i ← end_of 80 0 s mem
  first ← write mem (ims + 2 * i + 1) 0
  both ← write first (ims + 2 * i) 0
  spread ims s (suc i) both

-- `for(i=0;i<80;i++)`, with the rounds left, and the NUL behind it.
unfoldable pub gather : ℕ → ℕ → ℕ → List ℕ → Option (List ℕ)
gather zero ims s mem = write mem s 0
gather (suc left) ims s mem = do
  c ← get_elem? mem (suc ims)
  let more = write mem s c >>= gather left (ims + 2) (suc s)
  if c == 0 then write mem s 0 else more

unfoldable pub imdecs : ℕ → ℕ → List ℕ → Option (List ℕ)
unfolding gather
imdecs ims s mem = gather 80 ims s mem
