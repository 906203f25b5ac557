-- ===== src/Metrics/Keys.antt =====
-- The parts of an `HttpKey` are read back from it.
use streamgive_backend.Prelude.{
  ℕ, ◌≤◌, ◌≡◌, refl, ap, ◌∙◌, Bool, false, some, List, [], ◌∷◌, ◌++◌, nat_eq, arith, codes, show_ℕ,
  All, number_from-show_ℕ, All-show_ℕ, any,
}
use streamgive_backend.Metrics.{http_key, split_key, put_code, labels_of_pieces, key_labels, labels}

abbrev pub is_nul : ℕ → Bool
is_nul c = nat_eq c 0

split_key_piece :
    (piece rest : List ℕ)
    → any is_nul piece ≡ false
    → split_key (piece ++ 0 ∷ rest) ≡ piece ∷ split_key rest
split_key_piece [] rest h = refl
split_key_piece (c ∷ piece) rest h =
    let tail = split_key_piece piece rest (ground (arith, h)) in
    let here : nat_eq c 0 ≡ false = ground (arith, h) in rw here (ap (put_code c) tail)

split_key_last : (piece : List ℕ) → any is_nul piece ≡ false → split_key piece ≡ piece ∷ []
split_key_last [] h = refl
split_key_last (c ∷ piece) h =
    let tail = split_key_last piece (ground (arith, h)) in
    let here : nat_eq c 0 ≡ false = ground (arith, h) in rw here (ap (put_code c) tail)

no_nul : (cs : List ℕ) → All (λ c. 48 ≤ c) cs → any is_nul cs ≡ false
no_nul [] a = refl
no_nul (c ∷ cs) (h, a) = ground (arith, h, no_nul cs a)

pub split_key-http_key :
    (method route : List ℕ) (status_code : ℕ)
    → any is_nul method ≡ false
    → any is_nul route ≡ false
    → split_key (http_key method route status_code)
      ≡ method ∷ route ∷ codes (show_ℕ status_code) ∷ []
split_key-http_key method route status_code hm hr =
    let shown = codes (show_ℕ status_code) in
    let last = split_key_last shown (no_nul shown (All-show_ℕ status_code)) in
    let second = split_key_piece route shown hr ∙ ap (λ pieces. route ∷ pieces) last in
    let first : split_key (http_key method route status_code)
        ≡ method ∷ split_key (route ++ 0 ∷ shown) =
      split_key_piece method (route ++ 0 ∷ shown) hm in
    first ∙ ap (λ pieces. method ∷ pieces) second

-- The labels of a key are those of the method, the route and the status that it was made of, when the
-- method and the route hold no NUL.
pub key_labels-http_key :
    (method route : List ℕ) (status_code : ℕ)
    → any is_nul method ≡ false
    → any is_nul route ≡ false
    → key_labels (http_key method route status_code) ≡ some (labels method route status_code)
unfolding key_labels
key_labels-http_key method route status_code hm hr =
    ap labels_of_pieces (split_key-http_key method route status_code hm hr)
    ∙ ap (λ n. some (labels method route n)) (number_from-show_ℕ status_code)
