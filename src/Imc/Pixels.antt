-- ===== src/Imc/Pixels.antt =====
-- The lines of pixels in a FITS file: `imc_fits_rl`, `imc_fits_wl` and the byte swaps of
-- demo/spcam/sdfred20100528/mosaic/imc/imc_fits.c on a machine that stores the lowest byte first. A file is
-- its bytes.
use pwrake.Prelude.{
  ℕ, zero, suc, ◌+◌, ◌-◌, ◌*◌, ◌/◌, ◌%◌, ◌^◌, Bool, true, false, ◌&&◌, ◌||◌, List, [], ◌∷◌, ◌++◌,
  Option, none, some, length, get_elem?, set, replicate, ltb, leb, ◌==◌, if◌then◌else◌, ◌>>=◌,
}
use pwrake.Prelude.Int.{ℤ, pos, negsuc}
use pwrake.Imc.Header.{bytes, words, is_dtype, is_zero, FitsType}
pub mod Swapped
pub mod Filed
pub mod Lines

-- What a line needs of `struct imh`, with the type that `imc_fits_get_dtype` reads.
pub record Image : Type 0 where
  pub is_fits : Bool
  pub npx : ℕ
  pub ndatx : ℕ
  pub kind : FitsType

-- C's arithmetic on floats, of one type for `float` and `double`; `floor` ends in the conversion to an
-- integer, and `bits` and `of_bits` are the 32 bits of a float.
pub record Arith (F : Type 0) : Type 0 where
  pub minus : F → F → F
  pub plus : F → F → F
  pub times : F → F → F
  pub over : F → F → F
  pub half : F
  pub floor : F → ℤ
  pub of_int : ℤ → F
  pub bits : F → ℕ
  pub of_bits : ℕ → F

-- `nbyte= abs(dtype/8);`
abbrev pub nbyte : ℕ → ℕ
nbyte dtype = if dtype == 8 then 1 else if dtype == 16 then 2 else 4

-- A value in `n` bytes, modulo their range, and the number that they stand for.
abbrev pub wrap : ℕ → ℤ → ℕ
wrap range (pos v) = v % range
wrap range (negsuc v) = range - 1 - v % range

abbrev pub signed : ℕ → ℕ → ℤ
signed range w = if ltb w (range / 2) then pos w else negsuc (range - 1 - w)

abbrev pub range_of : ℕ → ℕ
range_of dtype = if dtype == 8 then 256 else if dtype == 16 then 65536 else 4294967296

-- The bytes of a pixel in the buffer, and back.
unfoldable pub pixel_bytes : ℕ → ℕ → List ℕ
pixel_bytes dtype w =
    if dtype == 8 then w ∷ [] else if dtype == 16 then w % 256 ∷ w / 256 % 256 ∷ [] else bytes w

unfoldable pub pairs : List ℕ → List ℕ
pairs [] = []
pairs (a ∷ []) = []
pairs (a ∷ b ∷ buff) = (a + 256 * b) ∷ pairs buff

unfoldable pub pixel_words : ℕ → List ℕ → List ℕ
unfolding pairs
pixel_words dtype buff = if dtype == 8 then buff else if dtype == 16 then pairs buff else words buff

-- On the `size/2` or `size/4` whole words of a buffer.
unfoldable pub imc_fits_swap16 : List ℕ → List ℕ
imc_fits_swap16 [] = []
imc_fits_swap16 (a ∷ []) = a ∷ []
imc_fits_swap16 (a ∷ b ∷ rest) = b ∷ a ∷ imc_fits_swap16 rest

unfoldable pub imc_fits_swap32 : List ℕ → List ℕ
imc_fits_swap32 [] = []
imc_fits_swap32 (a ∷ []) = a ∷ []
imc_fits_swap32 (a ∷ b ∷ []) = a ∷ b ∷ []
imc_fits_swap32 (a ∷ b ∷ c ∷ []) = a ∷ b ∷ c ∷ []
imc_fits_swap32 (a ∷ b ∷ c ∷ d ∷ rest) = d ∷ c ∷ b ∷ a ∷ imc_fits_swap32 rest

unfoldable pub swapped : ℕ → List ℕ → List ℕ
unfolding imc_fits_swap16 imc_fits_swap32
swapped dtype buff =
    if dtype == 8 then buff else if dtype == 16 then imc_fits_swap16 buff else imc_fits_swap32 buff

-- A write behind the end makes the file longer, with zeros up to the place.
unfoldable pub put_byte : ℕ → ℕ → List ℕ → List ℕ
put_byte p b file =
    if ltb p (length file)
    then set file p b
    else (file ++ replicate (p - length file) 0) ++ (b ∷ [])

-- `fseek` and `fwrite`, and `fseek` and `fread`, which fails where the file ends too early.
unfoldable pub fwrite : ℕ → List ℕ → List ℕ → List ℕ
unfolding put_byte
fwrite offset [] file = file
fwrite offset (b ∷ bs) file = fwrite (suc offset) bs (put_byte offset b file)

unfoldable pub fread : ℕ → ℕ → List ℕ → Option (List ℕ)
fread offset zero file = some []
fread offset (suc n) file = do
  b ← get_elem? file offset
  bs ← fread (suc offset) n file
  some (b ∷ bs)

-- `bscale == 1.0`
abbrev pub is_one : ℕ → Bool
is_one bscale = bscale == 1065353216

module _ {F : Type 0} (o : Arith F) where
  -- The word of a pixel; out of range it is taken modulo the range.
  unfoldable pub encode : FitsType → F → ℕ
  encode k x =
      let bzero = o.of_bits k.bzero in
      let bscale = o.of_bits k.bscale in
      let scaled = o.over (o.minus x bzero) bscale in
      let real = if is_one k.bscale then o.minus x bzero else scaled in
      let whole =
        if is_one k.bscale
        then o.floor (o.minus x (o.minus bzero o.half))
        else o.floor (o.plus scaled o.half) in
      if k.dtype == 4294967264 then o.bits real else wrap (range_of k.dtype) whole

  unfoldable pub decode : FitsType → ℕ → F
  decode k w =
      let bzero = o.of_bits k.bzero in
      let v =
        if k.dtype == 4294967264 then o.of_bits w else o.of_int (signed (range_of k.dtype) w) in
      if is_one k.bscale then o.plus bzero v else o.plus bzero (o.times (o.of_bits k.bscale) v)

  -- The buffer of a line of `n` pixels; an array of fewer is a fault.
  unfoldable pub fill : FitsType → ℕ → List F → Option (List ℕ)
  unfolding encode pixel_bytes
  fill k zero dp = some []
  fill k (suc n) [] = none
  fill k (suc n) (x ∷ dp) = do rest ← fill k n dp; some (pixel_bytes k.dtype (encode k x) ++ rest)

  unfoldable pub decode_all : FitsType → List ℕ → List F
  unfolding decode
  decode_all k [] = []
  decode_all k (w ∷ ws) = decode k w ∷ decode_all k ws

  -- The return value and the file.
  unfoldable pub imc_fits_wl : Image → List F → ℕ → List ℕ → Option (ℕ × List ℕ)
  unfolding fill swapped fwrite
  imc_fits_wl im dp iy file =
      let k = im.kind in
      let offset = k.pixoff + iy * nbyte k.dtype * im.npx in
      let done = (do
        buff ← fill k im.npx dp
        some (1, fwrite offset (swapped k.dtype buff) file)) in
      let failed = some (0, file) in
      if im.is_fits
      then if im.npx == 0
        then failed
        else if is_dtype k.dtype
        then (if is_zero k.bscale then failed else done)
        else failed
      else failed

  -- The return value and, for 1, the pixels.
  unfoldable pub imc_fits_rl : Image → ℕ → List ℕ → ℕ × List F
  unfolding fread swapped pixel_words decode_all
  imc_fits_rl im iy file =
      let k = im.kind in
      let offset = k.pixoff + iy * nbyte k.dtype * im.ndatx in
      let read : ℕ × List F = elim (fread offset (im.npx * nbyte k.dtype) file) [
        | none ↦ (0, [])
        | some buff ↦ (1, decode_all k (pixel_words k.dtype (swapped k.dtype buff)))
      ] in
      if im.is_fits
      then if im.npx == 0 then (0, []) else if is_dtype k.dtype then read else (0, [])
      else (0, [])
