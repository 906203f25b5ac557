-- ===== src/Tests/TextOrder.antt =====
-- Texts by their code points, as an order that a database could have.
use Prim.Native.Char.{code}
use text.Mathlib.TextEquality.{Char-path}
use streamgive_backend.Prelude.{
  String, Bool, true, false, ◌&&◌, ◌||◌, ◌≡◌, refl, ap, ◌∙◌, arith, ltb, nat_eq, eq_iff, ◌==◌,
}
use streamgive_backend.Routes.Keyset.{IsTextOrder}

abbrev pub text_lt : String → String → Bool
text_lt String.[] String.[] = false
text_lt String.[] (String.◌∷◌ d t) = true
text_lt (String.◌∷◌ c s) String.[] = false
text_lt (String.◌∷◌ c s) (String.◌∷◌ d t) =
    ltb (code c) (code d) || (nat_eq (code c) (code d) && text_lt s t)

text_lt_asym : (s t : String) → text_lt s t ≡ true → text_lt t s ≡ false
text_lt_asym String.[] String.[] h = refl
text_lt_asym String.[] (String.◌∷◌ d t) h = refl
text_lt_asym (String.◌∷◌ c s) String.[] h = absurd (ground arith)
text_lt_asym (String.◌∷◌ c s) (String.◌∷◌ d t) h = ground (arith, text_lt_asym s t)

text_lt_trans : (s t u : String) → text_lt s t ≡ true → text_lt t u ≡ true → text_lt s u ≡ true
text_lt_trans String.[] String.[] String.[] h k = h
text_lt_trans String.[] (String.◌∷◌ d t) String.[] h k = absurd (ground arith)
text_lt_trans String.[] t (String.◌∷◌ e u) h k = refl
text_lt_trans (String.◌∷◌ c s) String.[] u h k = absurd (ground arith)
text_lt_trans (String.◌∷◌ c s) (String.◌∷◌ d t) String.[] h k = absurd (ground arith)
text_lt_trans (String.◌∷◌ c s) (String.◌∷◌ d t) (String.◌∷◌ e u) h k =
    ground (arith, text_lt_trans s t u)

text_lt_total : (s t : String) → text_lt s t ≡ false → text_lt t s ≡ false → s ≡ t
text_lt_total String.[] String.[] h k = refl
text_lt_total String.[] (String.◌∷◌ d t) h k = absurd (ground arith)
text_lt_total (String.◌∷◌ c s) String.[] h k = absurd (ground arith)
text_lt_total (String.◌∷◌ c s) (String.◌∷◌ d t) h k =
    let same_code : code c ≡ code d = ground arith in
    let same_rest : s ≡ t = text_lt_total s t (ground arith) (ground arith) in
    ap (λ x. String.◌∷◌ x s) (Char-path c d same_code) ∙ ap (λ r. String.◌∷◌ d r) same_rest

pub text_lt-IsTextOrder : IsTextOrder text_lt
text_lt-IsTextOrder = record {
  asymmetric = λ {s} {t} h. text_lt_asym s t h;
  transitive = λ {s} {t} {u} h k. text_lt_trans s t u h k;
  total = λ {s} {t} h k. text_lt_total s t h k;
}

pub distinct : (s t id : String) → (s == t) ≡ false → ((s == id) && (t == id)) ≡ false
distinct s t id h = ground (arith, eq_iff s id, eq_iff t id, eq_iff s t)
