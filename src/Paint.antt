-- ===== src/Paint.antt =====
-- demo/spcam/sdfred20100528/mosaic/libsrc/paint_sub.c: the region of a pixel is filled row by row,
-- with a list of the runs ("shadows") that a painted run casts on the rows beside it.
pub mod Shadows
pub mod Fill
pub mod Flood
pub mod Faults
pub mod Tests
