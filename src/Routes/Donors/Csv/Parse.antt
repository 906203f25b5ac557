-- ===== src/Routes/Donors/Csv/Parse.antt =====
-- A reader of RFC 4180 files, and that it reads what was written.
use streamgive_backend.Prelude.{
  ℕ, ◌≡◌, refl, sym, ap, ◌∙◌, true, false, Option, none, some, List, [], ◌∷◌, ◌++◌, map, any,
  nat_eq, nat_eq_iff, if◌then◌else◌, Bool-cases, inl, inr, arith, append_assoc, append-nil, All,
  ltb, length,
}
use streamgive_backend.Routes.Donors.Csv.{
  quote, comma, guarded, is_special, double_quotes, quoted, escape_csv_field, csv_line, csv_content,
}

-- Where the reader stands: before a field, in a plain one, between quotes, after a quote among quotes.
pub data State : Type 0 where
  before plain within leaving : State

-- The rest of the field that is read, the fields after it in its line, and the lines after this one.
abbrev pub Fields : Type 0
Fields = List ℕ × (List (List ℕ) × List (List (List ℕ)))

abbrev pub push : ℕ → Fields → Fields
push c fields = (c ∷ fields.0, fields.1)

abbrev pub next_field : Fields → Fields
next_field fields = ([], (fields.0 ∷ fields.1.0, fields.1.1))

-- The lines of a text, of what is read of it from its first field on. No line follows the last line end.
abbrev pub lines_of : List ℕ → Fields → List (List (List ℕ))
lines_of [] fields = []
lines_of (c ∷ cs) fields = (fields.0 ∷ fields.1.0) ∷ fields.1.1

abbrev pub next_line : List ℕ → Fields → Fields
next_line cs fields = ([], ([], lines_of cs fields))

-- Outside quotes: a comma ends the field, a line feed the line, and a carriage return is skipped.
abbrev pub outside : ℕ → List ℕ → (fresh rest : Fields) → Fields
outside c cs fresh rest =
    if nat_eq c comma
    then next_field fresh
    else if nat_eq c 10
    then next_line cs fresh
    else if nat_eq c 13
    then rest
    else push c rest

unfoldable pub read : State → List ℕ → Fields
read state [] = ([], ([], []))
read before (c ∷ cs) =
    let among = read within cs in
    let fresh = read before cs in
    let rest = read plain cs in if nat_eq c quote then among else outside c cs fresh rest
read plain (c ∷ cs) =
    let fresh = read before cs in let rest = read plain cs in outside c cs fresh rest
read within (c ∷ cs) =
    let among = read within cs in
    let left = read leaving cs in if nat_eq c quote then left else push c among
read leaving (c ∷ cs) =
    let among = read within cs in
    let fresh = read before cs in
    let rest = read plain cs in if nat_eq c quote then push quote among else outside c cs fresh rest

unfoldable pub read_file : List ℕ → List (List (List ℕ))
unfolding read
read_file cs = lines_of cs (read before cs)

abbrev pub prepend : List ℕ → Fields → Fields
prepend cs fields = (cs ++ fields.0, fields.1)

-- Doubled quotes are read back, up to the closing quote.
read-double_quotes :
    (cs rest : List ℕ)
    → read within (double_quotes cs ++ quote ∷ rest) ≡ prepend cs (read leaving rest)
unfolding read double_quotes
read-double_quotes [] rest = refl
read-double_quotes (c ∷ cs) rest =
    let tail = read-double_quotes cs rest in
    elim (Bool-cases (nat_eq c quote)) [
      | inl e ↦
          let same = (nat_eq_iff c quote).0 e in
          rw e (ap (push quote) tail ∙ ap (λ d. push d (prepend cs (read leaving rest))) (sym same))
      | inr e ↦ rw e (rw e (ap (push c) tail))
    ]

-- Without special characters a field is read as it is.
read-plain :
    (cs rest : List ℕ)
    → any is_special cs ≡ false
    → read plain (cs ++ rest) ≡ prepend cs (read plain rest)
unfolding read
read-plain [] rest h = refl
read-plain (c ∷ cs) rest h =
    let tail = read-plain cs rest (ground (arith, h)) in
    let no_comma : nat_eq c comma ≡ false = ground (arith, h) in
    let no_feed : nat_eq c 10 ≡ false = ground (arith, h) in
    let no_return : nat_eq c 13 ≡ false = ground (arith, h) in
    rw no_comma (rw no_feed (rw no_return (ap (push c) tail)))

-- What a field says: nothing where it is null, else its guarded text.
abbrev pub shown : Option (List ℕ) → List ℕ
shown none = []
shown (some value) = guarded value

read-unquoted :
    (cs rest : List ℕ) (e : Fields)
    → any is_special cs ≡ false
    → read plain rest ≡ e
    → read before rest ≡ e
    → read before (cs ++ rest) ≡ prepend cs e
unfolding read
read-unquoted [] rest e h p b = b
read-unquoted (c ∷ cs) rest e h p b =
    let tail = read-plain cs rest (ground (arith, h)) in
    let no_quote : nat_eq c quote ≡ false = ground (arith, h) in
    let no_comma : nat_eq c comma ≡ false = ground (arith, h) in
    let no_feed : nat_eq c 10 ≡ false = ground (arith, h) in
    let no_return : nat_eq c 13 ≡ false = ground (arith, h) in
    let step = ap (push c) (tail ∙ ap (prepend cs) p) in
    rw no_quote (rw no_comma (rw no_feed (rw no_return step)))

read-quoted :
    (cs rest : List ℕ) (e : Fields)
    → read leaving rest ≡ e
    → read before (quoted cs ++ rest) ≡ prepend cs e
unfolding read quoted
read-quoted cs rest e l =
    ap (read within) (append_assoc (double_quotes cs) (quote ∷ []) rest)
    ∙ read-double_quotes cs rest
    ∙ ap (prepend cs) l

read-escape_csv_field :
    (field : Option (List ℕ)) (rest : List ℕ) (e : Fields)
    → read plain rest ≡ e
    → read leaving rest ≡ e
    → read before rest ≡ e
    → read before (escape_csv_field field ++ rest) ≡ prepend (shown field) e
unfolding escape_csv_field
read-escape_csv_field none rest e p l b = b
read-escape_csv_field (some value) rest e p l b =
    elim (Bool-cases (any is_special (guarded value))) [
      | inl special ↦ rw special (read-quoted (guarded value) rest e l)
      | inr ordinary ↦ rw ordinary (read-unquoted (guarded value) rest e ordinary p b)
    ]

read-csv_line :
    (field : Option (List ℕ)) (fields : List (Option (List ℕ))) (tail : List ℕ)
    (rows : List (List (List ℕ)))
    → read plain tail ≡ ([], ([], rows))
    → read leaving tail ≡ ([], ([], rows))
    → read before tail ≡ ([], ([], rows))
    → read before (csv_line (field ∷ fields) ++ tail) ≡ (shown field, (map shown fields, rows))
unfolding read csv_line
read-csv_line field [] tail rows p l b =
    read-escape_csv_field field tail ([], ([], rows)) p l b
    ∙ ap (λ cs. (cs, ([], rows))) (append-nil (shown field))
read-csv_line field (following ∷ fields) tail rows p l b =
    let rest = read-csv_line following fields tail rows p l b in
    let behind = csv_line (following ∷ fields) ++ tail in
    let e : Fields = ([], (shown following ∷ map shown fields, rows)) in
    let ended = ap next_field rest in
    ap (read before)
      (append_assoc (escape_csv_field field) (comma ∷ csv_line (following ∷ fields)) tail)
    ∙ read-escape_csv_field field (comma ∷ behind) e ended ended ended
    ∙ ap (λ cs. (cs, (shown following ∷ map shown fields, rows))) (append-nil (shown field))

lines_of-append :
    (cs ds : List ℕ) (d : ℕ) (fields : Fields)
    → lines_of (cs ++ d ∷ ds) fields ≡ (fields.0 ∷ fields.1.0) ∷ fields.1.1
lines_of-append [] ds d fields = refl
lines_of-append (c ∷ cs) ds d fields = refl

-- A written file whose lines have a field each at least is read back, by a reader of RFC 4180, as
-- exactly its lines of fields: a null field as the empty text, another one as its text with a single
-- quote before it where it starts like a formula, whatever quotes, commas and line breaks it contains.
pub read_file-csv_content :
    (rows : List (List (Option (List ℕ))))
    → All (λ row. ltb 0 (length row) ≡ true) rows
    → read_file (csv_content rows) ≡ map (map shown) rows
unfolding read_file csv_content read
read_file-csv_content [] h = refl
read_file-csv_content ([] ∷ rows) (h, hs) = absurd (ground (arith, h))
read_file-csv_content ((field ∷ fields) ∷ rows) (h, hs) =
    let rest = read_file-csv_content rows hs in
    let tail = 13 ∷ 10 ∷ csv_content rows in
    let line =
      read-csv_line field fields tail (lines_of (csv_content rows) (read before (csv_content rows)))
        refl refl refl in
    lines_of-append (csv_line (field ∷ fields)) (10 ∷ csv_content rows) 13
      (read before (csv_line (field ∷ fields) ++ tail))
    ∙ ap {A = Fields} (λ r. (r.0 ∷ r.1.0) ∷ r.1.1) line
    ∙ ap (λ lines. map shown (field ∷ fields) ∷ lines) rest
