-- ===== src/Routes/Donors/Csv.antt =====
-- The CSV text of src/routes/donors.ts: `escapeCsvField`, the lines and the file. A text is the list of
-- its code points.
pub mod Parse
use streamgive_backend.Prelude.{
  ℕ, Bool, true, false, ◌||◌, Option, none, some, List, [], ◌∷◌, ◌++◌, map, any, nat_eq,
  if◌then◌else◌,
}

abbrev pub quote : ℕ
quote = 34

abbrev pub comma : ℕ
comma = 44

-- `/^[=+\-@\t\r]/`
abbrev pub is_formula_start : ℕ → Bool
is_formula_start c =
    nat_eq c b'='
    || (nat_eq c b'+' || (nat_eq c b'-' || (nat_eq c b'@' || (nat_eq c 9 || nat_eq c 13))))

abbrev pub starts_formula : List ℕ → Bool
starts_formula [] = false
starts_formula (c ∷ cs) = is_formula_start c

-- The text with a single quote before it, where a spreadsheet would read a formula.
abbrev pub guarded : List ℕ → List ℕ
guarded cs = if starts_formula cs then 39 ∷ cs else cs

abbrev pub is_special : ℕ → Bool
is_special c = nat_eq c quote || (nat_eq c comma || (nat_eq c 10 || nat_eq c 13))

-- `str.replace(/"/g, '""')`
pub double_quotes : List ℕ → List ℕ
double_quotes [] = []
double_quotes (c ∷ cs) =
    let rest = double_quotes cs in if nat_eq c quote then quote ∷ quote ∷ rest else c ∷ rest

pub quoted : List ℕ → List ℕ
unfolding double_quotes
quoted cs = quote ∷ (double_quotes cs ++ quote ∷ [])

-- A null or undefined value is `none`.
pub escape_csv_field : Option (List ℕ) → List ℕ
unfolding quoted
escape_csv_field none = []
escape_csv_field (some value) =
    if any is_special (guarded value) then quoted (guarded value) else guarded value

-- `fields.map(escapeCsvField).join(',')`
pub csv_line : List (Option (List ℕ)) → List ℕ
unfolding escape_csv_field
csv_line [] = []
csv_line (field ∷ []) = escape_csv_field field
csv_line (field ∷ next ∷ fields) = escape_csv_field field ++ comma ∷ csv_line (next ∷ fields)

-- The lines, each with its CR LF at the end.
pub csv_content : List (List (Option (List ℕ))) → List ℕ
unfolding csv_line
csv_content [] = []
csv_content (row ∷ rows) = csv_line row ++ 13 ∷ 10 ∷ csv_content rows
