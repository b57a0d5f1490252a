-- ===== src/Imc/Header.antt =====
-- The fields that demo/spcam/sdfred20100528/mosaic/imc keeps in the 1000 unused bytes `void_2` of an image
-- header: the type of a FITS file (imc_fits.c), the value of pixels to ignore and the offset of
-- unsigned shorts (imc.c). An `int` and the bits of a `float` are words of 32 bits, the lowest byte first
-- in memory.
use pwrake.Prelude.{
  ℕ, zero, suc, ◌+◌, ◌-◌, ◌*◌, ◌/◌, ◌%◌, Bool, true, false, ◌&&◌, ◌||◌, List, [], ◌∷◌, ◌++◌, Option,
  none, some, get_elem?, write, ◌==◌, if◌then◌else◌, ◌>>=◌,
}
pub mod Stored
pub mod Kept
pub mod Marks

-- `fitsbuff_i1(&w)[0]` to `[3]`
abbrev pub bytes : ℕ → List ℕ
bytes w = w % 256 ∷ w / 256 % 256 ∷ w / 65536 % 256 ∷ w / 16777216 % 256 ∷ []

abbrev pub word : ℕ → ℕ → ℕ → ℕ → ℕ
word a b c d = a + 256 * b + 65536 * c + 16777216 * d

-- `imhp->void_2[base - i]` for the bytes in turn.
unfoldable pub store : ℕ → List ℕ → List ℕ → Option (List ℕ)
store base [] void_2 = some void_2
store base (b ∷ bs) void_2 = do w ← write void_2 base b; store (base - 1) bs w

unfoldable pub fetch : ℕ → ℕ → List ℕ → Option (List ℕ)
fetch base zero void_2 = some []
fetch base (suc n) void_2 = do
  b ← get_elem? void_2 base
  bs ← fetch (base - 1) n void_2
  some (b ∷ bs)

-- FITSCHAR, FITSSHORT, FITSINT and FITSFLOAT, which is -32.
abbrev pub is_dtype : ℕ → Bool
is_dtype dtype = dtype == 8 || dtype == 16 || dtype == 32 || dtype == 4294967264

-- `bscale == 0.0`: both zeros.
abbrev pub is_zero : ℕ → Bool
is_zero bscale = bscale == 0 || bscale == 2147483648

-- The three loops write below `VID2SIZ - DTOFF`, which is 988. The return value is 1 or 0.
unfoldable pub imc_fits_set_dtype : ℕ → ℕ → ℕ → List ℕ → Option (ℕ × List ℕ)
unfolding store
imc_fits_set_dtype dtype bzero bscale void_2 =
    let done = (do
      a ← store 988 (bytes dtype) void_2
      b ← store 984 (bytes bzero) a
      c ← store 980 (bytes bscale) b
      some (1, c)) in
    if is_dtype dtype then (if is_zero bscale then some (0, void_2) else done) else some (0, void_2)

pub record FitsType : Type 0 where
  pub dtype : ℕ
  pub bzero : ℕ
  pub bscale : ℕ
  pub pixoff : ℕ

abbrev pub words : List ℕ → List ℕ
words [] = []
words (a ∷ []) = []
words (a ∷ b ∷ []) = []
words (a ∷ b ∷ c ∷ []) = []
words (a ∷ b ∷ c ∷ d ∷ bs) = word a b c d ∷ words bs

unfoldable pub imc_fits_get_dtype : List ℕ → Option FitsType
unfolding fetch
imc_fits_get_dtype void_2 = do
  buff ← fetch 988 16 void_2
  dtype ← get_elem? (words buff) 0
  bzero ← get_elem? (words buff) 1
  bscale ← get_elem? (words buff) 2
  pixoff ← get_elem? (words buff) 3
  some (record { dtype = dtype; bzero = bzero; bscale = bscale; pixoff = pixoff })

-- The loop of `imwopen_fits`, below `VID2SIZ-PXOFF`, which is 976.
unfoldable pub put_pixoff : ℕ → List ℕ → Option (List ℕ)
unfolding store
put_pixoff pixoff void_2 = store 976 (bytes pixoff) void_2

-- The key 0xaa at `VID2SIZ - IGNROFF - 4`, which is 967, and the bytes of the value from the highest down.
unfoldable pub put_pixignr : ℕ → List ℕ → Option (List ℕ)
put_pixignr pixignr void_2 = do
  v0 ← write void_2 967 170
  v1 ← write v0 968 (pixignr / 16777216 % 256)
  v2 ← write v1 969 (pixignr / 65536 % 256)
  v3 ← write v2 970 (pixignr / 256 % 256)
  write v3 971 (pixignr % 256)

-- Of an image that is not a mosaic. INT_MIN is the word 2^31.
unfoldable pub imget_pixignr : List ℕ → Option ℕ
imget_pixignr void_2 = do
  key ← get_elem? void_2 967
  let value = (do
    a ← get_elem? void_2 968
    b ← get_elem? void_2 969
    c ← get_elem? void_2 970
    d ← get_elem? void_2 971
    some (word d c b a))
  if key == 170 then value else some 2147483648

-- The keys 0x33 and 0x55 at `VID2SIZ-8`, which is 992.
unfoldable pub imget_u2off : List ℕ → Option ℕ
imget_u2off void_2 = do
  key1 ← get_elem? void_2 992
  key2 ← get_elem? void_2 993
  let value = (do high ← get_elem? void_2 994; low ← get_elem? void_2 995; some (256 * high + low))
  if key1 == 51 && key2 == 85 then value else some 0

-- `imset_u2off` up to the comment.
unfoldable pub put_u2off : ℕ → List ℕ → Option (List ℕ)
unfolding imget_u2off
put_u2off u2off void_2 = do
  old ← imget_u2off void_2
  let put = (do
    a ← write void_2 992 51
    b ← write a 993 85
    c ← write b 994 (u2off / 256 % 256)
    write c 995 (u2off % 256))
  if old == u2off then some void_2 else put
