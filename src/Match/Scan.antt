-- ===== src/Match/Scan.antt =====
-- `read_file`: each line is cut into columns, and three of them make a row.
pub mod Words
pub mod Columns
pub mod Ordered
pub mod Stale
use pwrake.Prelude.{
  ℕ, zero, suc, ◌+◌, Bool, true, false, ◌||◌, List, [], ◌∷◌, ◌++◌, Option, none, some, length, drop,
  ltb, leb, ◌==◌, if◌then◌else◌, ◌>>=◌,
}
use pwrake.Match.Rows.{CatalogRow}

pub data Status : Type 0 where
  space word : Status

-- What is kept from byte to byte, and the arrays also from line to line.
pub record Scanner : Type 0 where
  pub status : Status
  pub count : ℕ
  pub len : ℕ
  pub apos : ℕ → ℕ
  pub alen : ℕ → ℕ

abbrev pub update : (ℕ → ℕ) → ℕ → ℕ → ℕ → ℕ
update f k v j = if j == k then v else f j

-- `int apos[1000]; int alen[1000];`
abbrev pub max_columns : ℕ
max_columns = 1000

-- `s[i]=='\0' || s[i]=='#'`
abbrev pub ends_line : ℕ → Bool
ends_line ch = ch == 0 || ch == b'#'

abbrev pub is_blank : ℕ → Bool
is_blank ch = ch == b' ' || ch == 9

-- `alen[count] = len; count++;`
abbrev pub close_column : Scanner → Option Scanner
close_column st =
    if ltb st.count max_columns
    then some (record st { count = suc st.count; alen = update st.alen st.count st.len })
    else none

-- The body of the `switch` at the byte `i`.
pub scan_byte : ℕ → Bool → Scanner → Option Scanner
scan_byte i blank st = elim st.status [
  | Status.word ↦
      if blank
      then (close_column st >>= λ t. some (record t { len = 0; status = Status.space }))
      else some (record st { len = suc st.len })
  | Status.space ↦
      if blank
      then some st
      else if ltb st.count max_columns
      then some
          (record st { apos = update st.apos st.count i; status = Status.word; len = suc st.len })
      else none
]

pub scan_end : Scanner → Option Scanner
scan_end st = elim st.status [ Status.word ↦ close_column st | Status.space ↦ some st ]

-- The loop over the bytes of `s`, from `i` on.
unfoldable pub scan_line : ℕ → List ℕ → Scanner → Option Scanner
unfolding scan_byte scan_end
scan_line i [] st = some st
scan_line i (ch ∷ rest) st =
    let more = scan_byte i (is_blank ch) st >>= scan_line (suc i) rest in
    if ends_line ch then scan_end st else more

-- `strncpy(buf, src, n)`; the rest of `buf` keeps what it held.
unfoldable pub strncpy : List ℕ → List ℕ → ℕ → Option (List ℕ)
strncpy buf src zero = some buf
strncpy [] src (suc n) = none
strncpy (b ∷ buf) [] (suc n) = none
strncpy (b ∷ buf) (ch ∷ src) (suc n) = do
  rest ← strncpy buf (if ch == 0 then 0 ∷ src else src) n
  some (ch ∷ rest)

abbrev pub col_lon : ℕ
col_lon = 15

abbrev pub col_lat : ℕ
col_lat = 16

abbrev pub col_err : ℕ
col_err = 2

abbrev pub ncols : ℕ
ncols = 16

-- `malloc(sizeof(struct CatalogRow*)*MAXLINE)`, in rows of 56 bytes.
abbrev pub catalog_room : ℕ
catalog_room = 14285

-- What `read_file` keeps from line to line.
pub record Reader (F : Type 0) : Type 0 where
  pub scanner : Scanner
  pub buf : List ℕ
  pub line : ℕ
  pub rows : List (CatalogRow F)

module _ {F : Type 0} (atof : List ℕ → F) where
  -- `strncpy(buf,&s[apos[k]],alen[k]); atof(buf)`
  unfoldable pub read_column : Scanner → List ℕ → ℕ → List ℕ → Option (List ℕ × F)
  unfolding strncpy
  read_column st s k buf = do b ← strncpy buf (drop (st.apos k) s) (st.alen k); some (b, atof b)

module _ {F : Type 0} (atof : List ℕ → F) (off_scale : F → F → Bool) (rest_ang : F) where
  -- `if (offscl==0) cat[nobj++] = c;`
  pub store_row : Reader F → Scanner → List ℕ → CatalogRow F → Option (Reader F)
  store_row r st buf c =
      let inside =
        if ltb (length r.rows) catalog_room
        then some (record r { scanner = st; buf = buf; rows = r.rows ++ c ∷ [] })
        else none in
      if off_scale c.lon c.lat then some (record r { scanner = st; buf = buf }) else inside

  -- The row of one line; `min_ang` and `min_idx` are not set yet.
  pub read_row : Reader F → Scanner → List ℕ → Option (Reader F)
  unfolding read_column store_row
  read_row r st s = do
    (b1, lon) ← read_column atof st s col_lon r.buf
    (b2, lat) ← read_column atof st s col_lat b1
    (b3, err) ← read_column atof st s col_err b2
    store_row r st b3 (record {
      line = r.line;
      lon = lon;
      lat = lat;
      err = err;
      min_ang = rest_ang;
      min_idx = none;
    })

  pub read_line : List ℕ → Reader F → Option (Reader F)
  unfolding scan_line read_row
  read_line s r = do
    st ← scan_line 0 s (record r.scanner { status = Status.space; count = 0 })
    let row = read_row r st s
    r' ← if leb ncols st.count then row else some (record r { scanner = st })
    some (record r' { line = suc r'.line })

  -- The loop over the lines, each with the bytes that `fgets` stores, its NUL included.
  pub read_lines : List (List ℕ) → Reader F → Option (Reader F)
  unfolding read_line
  read_lines [] r = some r
  read_lines (s ∷ lines) r = read_line s r >>= read_lines lines

  -- What stands in `len`, `apos`, `alen` and `buf` at the start is left to the caller.
  unfoldable pub read_file : Scanner → List ℕ → List (List ℕ) → Option (List (CatalogRow F))
  unfolding read_lines
  read_file st buf lines = do
    r ← read_lines lines (record { scanner = st; buf = buf; line = 0; rows = [] })
    some r.rows
