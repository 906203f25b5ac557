-- ===== src/Notifications/Service/Remembered.antt =====
-- The set of delivered event ids: the oldest ids leave it, and it stays bounded.
use streamgive_backend.Prelude.{
  ℕ, zero, suc, ◌-◌, ◌≤◌, String, ◌≡◌, refl, ap, ◌∙◌, true, List, [], ◌∷◌, ◌++◌, length, drop, any,
  ltb, arith, length-append, Bool-cases, inl, inr, if◌then◌else◌, eq_refl,
}
use streamgive_backend.Notifications.Service.Message.{evict, remember_delivered, is_text}

-- The ids before any is evicted: `Set.add` leaves a known id where it is.
abbrev pub added : String → List String → List String
added id ids = if any (is_text id) ids then ids else ids ++ id ∷ []

pub evict-drop : (limit : ℕ) (ids : List String) → evict limit ids ≡ drop (length ids - limit) ids
unfolding evict
evict-drop limit [] = ground arith
evict-drop limit (x ∷ ids) = elim (Bool-cases (ltb limit (suc (length ids)))) [
  | inl over ↦
      let step : suc (length ids) - limit ≡ suc (length ids - limit) = ground (arith, over) in
      rw over rw step (evict-drop limit ids)
  | inr fits ↦
      let step : suc (length ids) - limit ≡ 0 = ground (arith, fits) in rw fits rw step refl
]

length-drop : (n : ℕ) (ids : List String) → length (drop n ids) ≡ length ids - n
length-drop zero [] = ground arith
length-drop (suc n) [] = ground arith
length-drop zero (x ∷ ids) = ground arith
length-drop (suc n) (x ∷ ids) = ground (arith, length-drop n ids)

any-append_last : (id : String) (ids : List String) → any (is_text id) (ids ++ id ∷ []) ≡ true
any-append_last id [] = rw (eq_refl id) refl
any-append_last id (x ∷ ids) = ground (arith, any-append_last id ids)

-- Dropping old ids leaves the last one.
any-drop_append :
    (n : ℕ) (id : String) (ids : List String)
    → n ≤ length ids
    → any (is_text id) (drop n (ids ++ id ∷ [])) ≡ true
any-drop_append zero id ids h = any-append_last id ids
any-drop_append (suc n) id [] h = ground (arith, h)
any-drop_append (suc n) id (x ∷ ids) h = any-drop_append n id ids (ground (arith, h))

pub remember_delivered-bounded :
    (limit : ℕ) (id : String) (ids : List String) → length (remember_delivered limit id ids) ≤ limit
unfolding remember_delivered
remember_delivered-bounded limit id ids =
    let all = if any (is_text id) ids then ids else ids ++ id ∷ [] in
    let size = ap length (evict-drop limit all) ∙ length-drop (length all - limit) all in
    omega (arith, size)

remember_delivered-keeps :
    (limit : ℕ) (id : String) (ids : List String)
    → 1 ≤ limit
    → length ids ≤ limit
    → any (is_text id) (drop (length (added id ids) - limit) (added id ids)) ≡ true
remember_delivered-keeps limit id ids positive h = elim (Bool-cases (any (is_text id) ids)) [
  | inl known ↦
      let none_dropped : length ids - limit ≡ 0 = omega (arith, h) in rw known rw none_dropped known
  | inr new ↦ rw new (
      any-drop_append (length (ids ++ id ∷ []) - limit) id ids
        (ground (arith, length-append ids (id ∷ []), h, positive)))
]

-- Where the limit is at least 1 and holds before: a known id leaves the set as it is, a new one joins
-- it as the newest, the oldest ids past the limit are dropped, the limit holds again, and the id is
-- among those that remain.
pub remember_delivered-Newest :
    (limit : ℕ) (id : String) (ids : List String)
    → 1 ≤ limit
    → length ids ≤ limit
    → (remember_delivered limit id ids ≡ drop (length (added id ids) - limit) (added id ids))
      × (length (remember_delivered limit id ids) ≤ limit)
      × (any (is_text id) (remember_delivered limit id ids) ≡ true)
unfolding remember_delivered
remember_delivered-Newest limit id ids positive h =
    let dropped = evict-drop limit (added id ids) in
    (
      dropped,
      remember_delivered-bounded limit id ids,
      ap (any (is_text id)) dropped ∙ remember_delivered-keeps limit id ids positive h,
    )
