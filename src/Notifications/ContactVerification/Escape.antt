-- ===== src/Notifications/ContactVerification/Escape.antt =====
-- The escaped text has no character that ends an HTML text or attribute.
use Prim.Native.Char.{Char, code}
use streamgive_backend.Prelude.{
  ℕ, String, ◌≡◌, refl, Bool, true, not, ◌&&◌, nat_eq, ◌<>◌, codes, All, Bool-cases, inl, inr,
  arith,
}
use streamgive_backend.Notifications.ContactVerification.{escape_character, escape_html}

-- Not `<`, `>`, `"` or `'`.
abbrev pub is_inert : ℕ → Bool
is_inert c =
    not (nat_eq c b'<') && (not (nat_eq c b'>') && (not (nat_eq c 34) && not (nat_eq c 39)))

abbrev pub Inert : String → Type 0
Inert s = All (λ c. is_inert c ≡ true) (codes s)

Inert-append : (s t : String) → Inert s → Inert t → Inert (s <> t)
Inert-append String.[] t p q = q
Inert-append (String.◌∷◌ c s) t p q = (p.0, Inert-append s t p.1 q)

escape_character-Inert : (c : Char) → Inert (escape_character c)
unfolding escape_character
escape_character-Inert c = elim (Bool-cases (nat_eq (code c) b'&')) [
  | inl e ↦ rw e (refl, (refl, (refl, (refl, (refl, tt)))))
  | inr e1 ↦ elim (Bool-cases (nat_eq (code c) b'<')) [
    | inl e ↦ rw e1 rw e (refl, (refl, (refl, (refl, tt))))
    | inr e2 ↦ elim (Bool-cases (nat_eq (code c) b'>')) [
      | inl e ↦ rw e1 rw e2 rw e (refl, (refl, (refl, (refl, tt))))
      | inr e3 ↦ elim (Bool-cases (nat_eq (code c) 34)) [
        | inl e ↦ rw e1 rw e2 rw e3 rw e (refl, (refl, (refl, (refl, (refl, (refl, tt))))))
        | inr e4 ↦ elim (Bool-cases (nat_eq (code c) 39)) [
          | inl e ↦ rw e1 rw e2 rw e3 rw e4 rw e (refl, (refl, (refl, (refl, (refl, tt)))))
          | inr e5 ↦ rw e1 rw e2 rw e3 rw e4 rw e5 (ground (arith, e2, e3, e4, e5), tt)
        ]
      ]
    ]
  ]
]

-- No escaped text contains `<`, `>`, `"` or `'`.
pub escape_html-Inert : (s : String) → Inert (escape_html s)
unfolding escape_html
escape_html-Inert String.[] = tt
escape_html-Inert (String.◌∷◌ c s) =
    Inert-append (escape_character c) (escape_html s) (escape_character-Inert c)
      (escape_html-Inert s)
