-- ===== src/Prelude/Texts.antt =====
-- JavaScript's string operations that the program uses: `toLowerCase`, `includes` and `slice(0, n)`.
pub mod Decimal
use Prim.Native.Nat.{ℕ, zero, suc, ◌+◌, ◌-◌, ◌*◌, ◌/◌, ◌%◌}
use Prim.Native.Char.{Char, code}
use Prim.Native.String.{String}
use mathlib.Core.Bool.{Bool, true, false, ◌&&◌, ◌||◌}
use mathlib.Core.List.{List, [], ◌∷◌}
use streamgive_backend.Prelude.Int.{ℤ, pos, negsuc}
use streamgive_backend.Prelude.Tests.{leb, nat_eq, if◌then◌else◌}

-- The code points of a text.
abbrev pub codes : String → List ℕ
codes String.[] = []
codes (String.◌∷◌ c s) = code c ∷ codes s

-- `toLowerCase`, on the ASCII letters.
abbrev pub to_lower_code : ℕ → ℕ
to_lower_code c = if leb b'A' c && leb c b'Z' then c + 32 else c

abbrev pub to_lower : List ℕ → List ℕ
to_lower [] = []
to_lower (c ∷ cs) = to_lower_code c ∷ to_lower cs

abbrev pub starts_with : List ℕ → List ℕ → Bool
starts_with cs [] = true
starts_with [] (d ∷ ds) = false
starts_with (c ∷ cs) (d ∷ ds) = nat_eq c d && starts_with cs ds

-- `text.includes(part)`
abbrev pub includes : List ℕ → List ℕ → Bool
includes [] part = starts_with [] part
includes (c ∷ cs) part = starts_with (c ∷ cs) part || includes cs part

-- A character that JavaScript writes as two code units.
abbrev is_wide : Char → Bool
is_wide c = leb 65536 (code c)

-- The number of code units: `text.length`.
abbrev pub units : String → ℕ
units String.[] = 0
units (String.◌∷◌ c s) = (if is_wide c then 2 else 1) + units s

-- `text.slice(0, n)`, which counts code units. Of a character that is cut in two, half is left, which is
-- stored as U+FFFD.
abbrev pub slice : ℕ → String → String
slice zero s = String.[]
slice (suc n) String.[] = String.[]
slice (suc n) (String.◌∷◌ c s) =
    let rest = slice (if is_wide c then n - 1 else n) s in
    if is_wide c && nat_eq n 0 then "�" else String.◌∷◌ c rest

-- The number of characters.
abbrev pub size : String → ℕ
size String.[] = 0
size (String.◌∷◌ c s) = suc (size s)

infixr 65 ◌<>◌
abbrev pub ◌<>◌ : String → String → String
String.[] <> t = t
(String.◌∷◌ c s) <> t = String.◌∷◌ c (s <> t)

digit : ℕ → Char
digit zero = "0"
digit (suc zero) = "1"
digit (suc (suc zero)) = "2"
digit (suc (suc (suc zero))) = "3"
digit (suc (suc (suc (suc zero)))) = "4"
digit (suc (suc (suc (suc (suc zero))))) = "5"
digit (suc (suc (suc (suc (suc (suc zero)))))) = "6"
digit (suc (suc (suc (suc (suc (suc (suc zero))))))) = "7"
digit (suc (suc (suc (suc (suc (suc (suc (suc zero)))))))) = "8"
digit _ = "9"

-- The fuel `n` is enough: a tenth of a number that is not 0 is smaller.
digits : ℕ → ℕ → String → String
digits zero n out = out
digits (suc fuel) n out =
    let longer = String.◌∷◌ (digit (n % 10)) out in
    let rest = digits fuel (n / 10) longer in if leb n 9 then longer else rest

-- The decimal text of a number and of a `bigint`.
unfoldable pub show_ℕ : ℕ → String
unfolding digits digit
show_ℕ n = digits (suc n) n ""

unfoldable pub show_ℤ : ℤ → String
unfolding show_ℕ
show_ℤ (pos n) = show_ℕ n
show_ℤ (negsuc n) = "-" <> show_ℕ (suc n)

-- `Number`, on the decimal text of a whole number.
abbrev pub number_from : ℕ → List ℕ → ℕ
number_from n [] = n
number_from n (c ∷ cs) = number_from (n * 10 + (c - 48)) cs
