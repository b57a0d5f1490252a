-- ===== src/Detect.antt =====
-- demo/spcam/sdfred20100528/mosaic/starsel/detect_sub3.c and obj3.h: the pixels above a threshold
-- are gathered into objects, with the flood of Paint.
pub mod Pixels
pub mod Objects
pub mod Convert
pub mod Simple
pub mod Strips
pub mod Tests
