-- ===== src/Sort.antt =====
-- The sorts of demo/spcam/sdfred20100528/mosaic/libsrc/sub_sort.c and their order.
pub mod Order
pub mod Extrema
pub mod Heap
pub mod Doubles
pub mod Radix
pub mod Select
pub mod Shell
pub mod Tests
