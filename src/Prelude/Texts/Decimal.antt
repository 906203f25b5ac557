-- ===== src/Prelude/Texts/Decimal.antt =====
-- The decimal text of a number is read back.
use Prim.Native.Nat.{ℕ, zero, suc, ◌+◌, ◌-◌, ◌*◌, ◌/◌, ◌%◌, ◌≤◌, ◌<◌}
use Prim.Native.Char.{code}
use Prim.Native.String.{String}
use mathlib.Core.Path.{◌≡◌, refl, ap, ◌∙◌}
use mathlib.Core.Bool.{Bool, true, false, ◌&&◌, not}
use mathlib.Core.Logic.{inl, inr}
use native.Mathlib.Omega.{arith}
use streamgive_backend.Prelude.Tests.{leb, leb→le, Bool-cases}
use streamgive_backend.Prelude.Lists.{All, any}
use streamgive_backend.Prelude.Texts.{codes, digit, digits, show_ℕ, number_from}

code-digit : (k : ℕ) → k ≤ 9 → code (digit k) ≡ 48 + k
unfolding digit
code-digit zero h = refl
code-digit (suc zero) h = refl
code-digit (suc (suc zero)) h = refl
code-digit (suc (suc (suc zero))) h = refl
code-digit (suc (suc (suc (suc zero)))) h = refl
code-digit (suc (suc (suc (suc (suc zero))))) h = refl
code-digit (suc (suc (suc (suc (suc (suc zero)))))) h = refl
code-digit (suc (suc (suc (suc (suc (suc (suc zero))))))) h = refl
code-digit (suc (suc (suc (suc (suc (suc (suc (suc zero)))))))) h = refl
code-digit (suc (suc (suc (suc (suc (suc (suc (suc (suc zero))))))))) h = refl
code-digit (suc (suc (suc (suc (suc (suc (suc (suc (suc (suc k)))))))))) h = absurd (omega arith)

number_from-digits :
    (fuel n : ℕ) (out : String)
    → n < fuel
    → number_from 0 (codes (digits fuel n out)) ≡ number_from n (codes out)
unfolding digits
number_from-digits zero n out h = absurd (omega arith)
number_from-digits (suc fuel) n out h =
    let last = code-digit (n % 10) (omega arith) in
    elim (Bool-cases (leb n 9)) [
      | inl e ↦
          let small = leb→le n 9 e in
          let value : 0 * 10 + (code (digit (n % 10)) - 48) ≡ n = omega (arith, last, small) in
          rw e (ap (λ m. number_from m (codes out)) value)
      | inr e ↦
          let fewer : n / 10 < fuel = ground (arith, e, h) in
          let value : n / 10 * 10 + (code (digit (n % 10)) - 48) ≡ n = omega (arith, last) in
          rw e (
            number_from-digits fuel (n / 10) (String.◌∷◌ (digit (n % 10)) out) fewer
            ∙ ap (λ m. number_from m (codes out)) value)
    ]

All-digits :
    (fuel n : ℕ) (out : String)
    → All (λ c. 48 ≤ c) (codes out)
    → All (λ c. 48 ≤ c) (codes (digits fuel n out))
unfolding digits
All-digits zero n out a = a
All-digits (suc fuel) n out a =
    let last = code-digit (n % 10) (omega arith) in
    let longer : All (λ c. 48 ≤ c) (codes (String.◌∷◌ (digit (n % 10)) out)) =
      (omega (arith, last), a) in
    elim (Bool-cases (leb n 9)) [
      | inl e ↦ rw e longer
      | inr e ↦ rw e (All-digits fuel (n / 10) (String.◌∷◌ (digit (n % 10)) out) longer)
    ]

pub number_from-show_ℕ : (n : ℕ) → number_from 0 (codes (show_ℕ n)) ≡ n
unfolding show_ℕ
number_from-show_ℕ n = number_from-digits (suc n) n "" (omega arith)

pub All-show_ℕ : (n : ℕ) → All (λ c. 48 ≤ c) (codes (show_ℕ n))
unfolding show_ℕ
All-show_ℕ n = All-digits (suc n) n "" tt

-- `\d`, and the characters that are not.
abbrev pub is_digit_code : ℕ → Bool
is_digit_code c = leb 48 c && leb c 57

abbrev pub no_digit_code : ℕ → Bool
no_digit_code c = not (is_digit_code c)

abbrev pub is_empty : String → Bool
is_empty String.[] = true
is_empty (String.◌∷◌ c s) = false

any-digits :
    (fuel n : ℕ) (out : String)
    → any no_digit_code (codes out) ≡ false
    → any no_digit_code (codes (digits fuel n out)) ≡ false
unfolding digits
any-digits zero n out a = a
any-digits (suc fuel) n out a =
    let last = code-digit (n % 10) (omega arith) in
    let lower : leb 48 (code (digit (n % 10))) ≡ true = ground (arith, last) in
    let bound : n % 10 ≤ 9 = omega arith in
    let upper : leb (code (digit (n % 10))) 57 ≡ true = ground (arith, last, bound) in
    let longer : any no_digit_code (codes (String.◌∷◌ (digit (n % 10)) out)) ≡ false =
      rw (lower, upper) a in
    elim (Bool-cases (leb n 9)) [
      | inl e ↦ rw e longer
      | inr e ↦ rw e (any-digits fuel (n / 10) (String.◌∷◌ (digit (n % 10)) out) longer)
    ]

is_empty-digits :
    (fuel n : ℕ) (out : String) → is_empty out ≡ false → is_empty (digits fuel n out) ≡ false
unfolding digits
is_empty-digits zero n out a = a
is_empty-digits (suc fuel) n out a = elim (Bool-cases (leb n 9)) [
  | inl e ↦ rw e refl
  | inr e ↦ rw e (is_empty-digits fuel (n / 10) (String.◌∷◌ (digit (n % 10)) out) refl)
]

pub any-show_ℕ : (n : ℕ) → any no_digit_code (codes (show_ℕ n)) ≡ false
unfolding show_ℕ
any-show_ℕ n = any-digits (suc n) n "" refl

pub is_empty-show_ℕ : (n : ℕ) → is_empty (show_ℕ n) ≡ false
unfolding show_ℕ digits
is_empty-show_ℕ n = elim (Bool-cases (leb n 9)) [
  | inl e ↦ rw e refl
  | inr e ↦ rw e (is_empty-digits n (n / 10) (String.◌∷◌ (digit (n % 10)) "") refl)
]
