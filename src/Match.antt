-- ===== src/Match.antt =====
-- demo/se-tile/bin/reduce_match.c: two catalogs of sources from overlapping tiles are matched by
-- angle, and of each matched pair the worse source is dropped.
pub mod Rows
pub mod Scan
pub mod Cross
pub mod Reduce
pub mod Run
pub mod Tests
