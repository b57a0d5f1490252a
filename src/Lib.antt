-- ===== src/Lib.antt =====
-- pwrake runs Rakefiles in parallel over a cluster. The repository's own C code is the set of
-- programs that its demonstration workflows run, and this library models their core.
--
-- demo/se-tile/bin/reduce_match.c (module Match) drops the duplicates from the catalogs of two
-- overlapping tiles. Match/Scan is `read_file`: a line is cut into columns byte by byte, and the
-- arrays of positions, `len` and the buffer keep what earlier lines left in them. Match/Cross is
-- `xmatch`, Match/Reduce is `reduce_dup`, and Match/Run is `main` once its files are open. CFITSIO,
-- WCSTools, libm and `atof` are parameters: `Trig` holds the arithmetic on doubles, and `off_scale`
-- is the test of `wcs2pix`.
--
-- demo/spcam/sdfred20100528/mosaic is the reduction of Subaru's Suprime-Cam images. Module Sort is
-- libsrc/sub_sort.c, and module Paint is libsrc/paint_sub.c: Paint/Shadows holds the lists of runs
-- that are still to be looked at, Paint/Fill the scan of a run and the loops over the lists, and
-- Paint/Flood the entry points. Paint/Faults runs floods that go wrong.
--
-- Module Sort/Doubles is libsrc/sub_sortd.c, whose sorts are those of sub_sort.c at doubles, and
-- module Detect is starsel/detect_sub3.c with obj3.h: Detect/Pixels holds an object's pixels, filled
-- by the calls that a flood makes, Detect/Objects the scan of an image, which fails where a flood does
-- (Detect/Objects/Lost), Detect/Convert the record of an object, Detect/Simple the objects of one image,
-- and Detect/Strips an image read in strips.
-- Sort/Radix is `mos_radixsort`, and Sort/Select is `nth`, which finds an entry by its place in
-- ascending order: `split` is its partition, and Sort/Doubles takes `nthd` from it.
--
-- Module Imc is part of imc, the library for image files: Imc/Cards holds the header lines of imc.c and
-- what replaces, adds and finds them, Imc/Merge the merge of two blocks of them, Imc/Quotes the quotes of a
-- string value in imc_fits.c, Imc/Iraf the strings of an IRAF header, and Imc/Header the fields in the
-- unused bytes of a header. Imc/Text is what these use of `printf`, `scanf` and the string functions.
-- Imc/Pixels is `imc_fits_rl` and `imc_fits_wl` with the byte swaps, on a file that is a list of bytes; the
-- arithmetic on floats is a parameter, `Arith`, and a number that does not fit its type is stored modulo
-- the type's range. Imc/Images is `imrl_tor` and `imwl_rto`, which call these or handle an IRAF image, and
-- the loops over all lines, `imrall_tor` and `imwall_rto`: Imc/Images/Words is about the buffer of a line,
-- Imc/Images/Line about a line of an IRAF image, Imc/Images/Formats joins it with a FITS line, and
-- Imc/Images/Whole is about the loops. Imc/Images/Typed is about an image whose header `imc_fits_set_dtype`
-- filled, and Imc/Images/Window is `imc_read`, a rectangle of an image file. The routines for mosaics are
-- parameters.
--
-- Module Fit is libsrc/lsf.c, the line through points from which far ones are put aside: Fit/Pass is the
-- loop over the points, Fit/Turns says what a run of turns is, and Fit/Rejected is about the loops.
--
-- Module Stat is the medians of libsrc/sub_stat.c and, in Stat/Doubles, of sub_statd.c: Stat/Spread is about
-- the calls of `nth` and Stat/Weighted about the search of `floatweightedmedian`.
--
-- Module Region is `imextra` of starsel/imopr.c, which copies a rectangle out of an image: Region/Copied is
-- what its `memcpy`s write, Region/Axes the columns and rows that the rectangle and the image share, and
-- Region/Shown puts the two together.
--
-- Module Options is getarg/getargs.c: `find_option` is the search of `parsearg` for an argument's option,
-- and Options/Parse what it stores, by the option's type, in cells at addresses. `atof` and the
-- narrowing to `float` are parameters, and `isalpha` is one.
--
-- Conventions. A float is a value of a type with a rank (Sort/Order): finitely many floats are not
-- NaN, and the comparisons read the ranks. NaN is not modelled. A line of a text file holds no NUL,
-- and a key of a header line no `%`. An array with checked accesses is a list, and `none` is an access
-- outside it or fuel that ran out, so a result that `Returns` claims includes that neither happens. In
-- module Detect a flood that follows a null pointer or does not end within its turns is `none` too, and
-- `ReturnsUnless` names it. An image or a map is a function of the index. An `int` is a natural number or an integer without a bound; sums that leave 32 bits are not modelled.
--
-- Fuel. A sift of a heap of `n` entries is given `n + 1` rounds, of which each goes down a level;
-- `shift` is given one round more than its position; the gaps of `shellsort` at least triple, so
-- `n + 1` rounds find the first, and as many rounds as the gap itself pass over all. A walk in a
-- row of an image is given a round more than the row has columns. The number of turns of the loops
-- of a flood is an argument: the theorems hold of every number, or say how many they need; no number
-- is known to be enough for all images (Paint/Faults has a flood that waits after 300). The loops
-- that shrink an array by swaps are given a round for each entry. The partition of `nth` is given a
-- round more than the array has entries, and its calls go to parts that are shorter, so one more than
-- the entries are enough. The loop over the points of `lsf` is given a round for each point, and the one
-- around it two more than it has points: a turn that is followed by another drops a point or is the first.
--
-- Not modelled: the other Suprime-Cam programs (listed in the manifest's components), memory that
-- runs out, and the messages and exits on a file that cannot be opened. demo/se-tile/bin/coord.h,
-- CFITSIO and handson/ex2/lib/libgfarm (a copy of Gfarm's client library) are other projects' code,
-- and pwrake's scheduler is written in Ruby.
pub mod Detect
pub mod Fit
pub mod Imc
pub mod Match
pub mod Options
pub mod Paint
pub mod Prelude
pub mod Region
pub mod Sort
pub mod Stat
