-- ===== src/Imc.antt =====
-- demo/spcam/sdfred20100528/mosaic/imc: the header lines of a FITS image (imc.c, imc_fits.c) and the
-- fields that the library keeps in the unused bytes of an image header.
pub mod Text
pub mod Cards
pub mod Merge
pub mod Quotes
pub mod Iraf
pub mod Header
pub mod Pixels
pub mod Images
pub mod Tests
