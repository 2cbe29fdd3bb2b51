-- ===== src/Csv.antt =====
-- backend/src/common/csv.ts: the CSV reader and writer, with a file of questions in the child modules
-- (canonical/csv-questions.ts). A string is a sequence of code points here and of UTF-16 units there; the
-- characters that matter are one unit each, and the others are only copied.
pub mod Quoting
pub mod Cells
pub mod Header
pub mod Options
pub mod Rows
pub mod Ready
pub mod Writing
use Prim.Native.Char.{Char, code}
use Prim.Native.String.{◌++◌ as append, [] as empty, ◌∷◌ as cons}
use tmx_assessment.Prelude.{
  ℕ, suc, ◌+◌, String, Bool, true, false, ◌&&◌, ◌||◌, not, ltb, ◌==◌, Option, none, some, List, [],
  ◌∷◌, ◌++◌, length, map, if◌then◌else◌,
}
use tmx_assessment.Prelude.Text.{◌===◌, filled, trim}

-- The characters, by their codes: " , ; tab, line feed, carriage return
abbrev pub is_quote : Char → Bool
is_quote c = code c == 34

abbrev pub is_line_feed : Char → Bool
is_line_feed c = code c == 10

abbrev pub is_return : Char → Bool
is_return c = code c == 13

-- What was read so far, and the value that is being read.
pub record Reader : Type 0 where
  pub records : List (List String)
  pub record' : List String
  pub value : String
  pub in_quotes : Bool
  pub quoted_value : Bool

abbrev pub nothing_read : Reader
nothing_read = record {
  records = [];
  record' = [];
  value = empty;
  in_quotes = false;
  quoted_value = false;
}

abbrev pub add_char : Char → Reader → Reader
add_char c r = record r { value = append r.value (cons c empty) }

unfoldable pub end_value : Reader → Reader
end_value r = record r { record' = r.record' ++ r.value ∷ []; value = empty; quoted_value = false }

unfoldable pub end_record : Reader → Reader
unfolding end_value
end_record r =
    let s : Reader = end_value r in record s { records = s.records ++ s.record' ∷ []; record' = [] }

abbrev pub next_is : (Char → Bool) → String → Bool
next_is test empty = false
next_is test (cons c s) = test c

-- One round of the loop: the state after the character, and whether the next one is skipped.
unfoldable pub read_char : ℕ → Char → String → Reader → Reader × Bool
unfolding end_value end_record
read_char separator c rest r =
    if r.in_quotes
    then (if not (is_quote c)
        then (add_char c r, false)
        else if next_is is_quote rest
        then (add_char c r, true)
        else (record r { in_quotes = false }, false))
    else if is_quote c && not (filled r.value) && not r.quoted_value
    then (record r { in_quotes = true; quoted_value = true }, false)
    else if code c == separator
    then (end_value r, false)
    else if is_line_feed c || is_return c
    then (end_record r, is_return c && next_is is_line_feed rest)
    else (add_char c r, false)

-- The loop, over the rest of the text; `skip` leaves one character out.
unfoldable pub read_all : ℕ → Bool → String → Reader → Reader
unfolding read_char
read_all separator skip empty r = r
read_all separator true (cons c rest) r = read_all separator false rest r
read_all separator false (cons c rest) r =
    let (r', skip) = read_char separator c rest r in read_all separator skip rest r'

pub data CsvResult : Type 0 where
  parsed : List (List String) → CsvResult
  -- the spreadsheet row where a quoted value starts that never closes
  never_closes : ℕ → CsvResult

abbrev pub is_started : Reader → Bool
is_started r = filled r.value || (elim r.record' [ [] ↦ false | v ∷ vs ↦ true ]) || r.quoted_value

unfoldable pub close : Reader → CsvResult
unfolding end_record
close r =
    if r.in_quotes
    then never_closes (length r.records + 1)
    else if is_started r
    then parsed (end_record r).records
    else parsed r.records

-- How often each separator stands in the header row, outside quotes.
pub record SeparatorCounts : Type 0 where
  pub commas : ℕ
  pub semicolons : ℕ
  pub tabs : ℕ

abbrev pub count_char : Char → SeparatorCounts → SeparatorCounts
count_char c n =
    if code c == 44
    then record n { commas = suc n.commas }
    else if code c == 59
    then record n { semicolons = suc n.semicolons }
    else if code c == 9
    then record n { tabs = suc n.tabs }
    else n

unfoldable pub count_separators : Bool → String → SeparatorCounts → SeparatorCounts
count_separators in_quotes empty n = n
count_separators in_quotes (cons c rest) n =
    if is_quote c
    then count_separators (not in_quotes) rest n
    else if not in_quotes && (is_line_feed c || is_return c)
    then n
    else if not in_quotes
    then count_separators in_quotes rest (count_char c n)
    else count_separators in_quotes rest n

-- The most frequent one; of equal ones, the first of comma, semicolon and tab.
unfoldable pub best_separator : SeparatorCounts → ℕ
best_separator n =
    if ltb n.commas n.tabs && ltb n.semicolons n.tabs
    then 9
    else if ltb n.commas n.semicolons
    then 59
    else 44

unfoldable pub detect_separator : String → ℕ
unfolding count_separators best_separator
detect_separator text =
    best_separator (count_separators false text (record { commas = 0; semicolons = 0; tabs = 0 }))

-- Without the byte-order mark
unfoldable pub without_mark : String → String
without_mark empty = empty
without_mark (cons c rest) = if code c == 0xfeff then rest else cons c rest

unfoldable pub parse_csv : String → CsvResult
unfolding without_mark detect_separator read_all close
parse_csv input =
    let text : String = without_mark input in
    close (read_all (detect_separator text) false text nothing_read)

abbrev pub is_special : Char → Bool
is_special c = is_quote c || code c == 44 || is_return c || is_line_feed c

abbrev pub has_special : String → Bool
has_special empty = false
has_special (cons c s) = is_special c || has_special s

-- `value.replace(/"/g, '""')`
unfoldable pub doubled : String → String
doubled empty = empty
doubled (cons c s) =
    let rest = doubled s in if is_quote c then cons c (cons c rest) else cons c rest

unfoldable pub quote : String → String
unfolding doubled trim
quote value =
    if has_special value || not (value === trim value)
    then append "\"" (append (doubled value) "\"")
    else value

abbrev pub join : String → List String → String
join separator [] = empty
join separator (x ∷ []) = x
join separator (x ∷ y ∷ ys) = append x (append separator (join separator (y ∷ ys)))

unfoldable pub to_csv : List (List String) → String
unfolding quote
to_csv rows = append (join "\r\n" (map (λ row. join "," (map quote row)) rows)) "\r\n"
