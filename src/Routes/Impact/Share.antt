-- ===== src/Routes/Impact/Share.antt =====
-- The share of one NGO in src/routes/impact.ts.
use native.Mathlib.Nat.{div-le_of_le-mul}
use mathlib.Core.Path.{subst}
use streamgive_backend.Prelude.{
  Option-cases, find_first, ℕ, zero, suc, ◌+◌, ◌*◌, ◌/◌, ◌≤◌, Bool, List, [], ◌∷◌, map, select, All,
  ◌≡◌, refl, ap, ◌∙◌, +ℤ-pos, arith, ℤ, pos, negsuc, pos_part, neg_part, ◌+ℤ◌, String, Bool-cases,
  inl, inr,
}
use streamgive_backend.Db.{Stream, StreamStatus, active, cancelled}
use streamgive_backend.Routes.NgoRows.{NgoRow, has_id}
use streamgive_backend.Routes.Donors.{sum_committed, selected}
use streamgive_backend.Routes.Reply.{Reply, refused, replied}
use streamgive_backend.Routes.Applications.Schema.{Field, Zod, parse_uuid}
use streamgive_backend.Routes.Impact.{
  NgoImpact, ngo_impact, is_of_ngo, share, ngo_impact_of, percent_scale,
}

-- The amounts that the vault contract can emit.
abbrev pub IsFunded : Stream → Type 0
IsFunded stream = (neg_part stream.balance ≡ 0) × (neg_part stream.withdrawn ≡ 0)

-- What a stream counts for.
abbrev amount : Stream → ℕ
amount s = elim s.status [
  | cancelled ↦ pos_part s.withdrawn
  | active ↦ pos_part s.balance + pos_part s.withdrawn
]

abbrev total : List Stream → ℕ
total [] = 0
total (s ∷ rest) = amount s + total rest

pos-part : (a : ℤ) → neg_part a ≡ 0 → a ≡ pos (pos_part a)
pos-part (pos a) h = refl
pos-part (negsuc a) h = absurd (omega arith)

sum-step :
    (n : ℕ) (s : Stream) (rest : List Stream)
    → IsFunded s
    → sum_committed (pos n) (map selected (s ∷ rest))
      ≡ sum_committed (pos (n + amount s)) (map selected rest)
unfolding sum_committed
sum-step n s rest (b, w) =
    go s.status s.balance s.withdrawn (pos-part s.balance b) (pos-part s.withdrawn w)
  where
    go :
        (status : StreamStatus) (b w : ℤ)
        → b ≡ pos (pos_part b)
        → w ≡ pos (pos_part w)
        → sum_committed
            (elim status as (λ _. ℤ) [ cancelled ↦ pos n +ℤ w | active ↦ (pos n +ℤ b) +ℤ w ])
            (map selected rest)
          ≡ sum_committed
              (pos (
                n + elim status as (λ _. ℕ) [
                  | cancelled ↦ pos_part w
                  | active ↦ pos_part b + pos_part w
                ]))
              (map selected rest)
    go active b w eb ew =
        ap (λ x. sum_committed x (map selected rest))
          (rw (eb, ew)
            (ap (λ x. x +ℤ pos (pos_part w)) (+ℤ-pos n (pos_part b))
              ∙ +ℤ-pos (n + pos_part b) (pos_part w)
              ∙ ap pos (omega arith)))
    go cancelled b w eb ew =
        ap (λ x. sum_committed x (map selected rest)) (rw ew (+ℤ-pos n (pos_part w)))

sum-total :
    (n : ℕ) (streams : List Stream)
    → All IsFunded streams
    → sum_committed (pos n) (map selected streams) ≡ pos (n + total streams)
unfolding sum_committed
sum-total n [] h = ap pos (omega arith)
sum-total n (s ∷ rest) (h, hs) =
    sum-step n s rest h ∙ sum-total (n + amount s) rest hs ∙ ap pos (omega arith)

total-select :
    (p : Stream → Bool) (streams : List Stream) → total (select p streams) ≤ total streams
total-select p [] = omega arith
total-select p (s ∷ rest) = ground (arith, total-select p rest)

All-select :
    (p : Stream → Bool) (streams : List Stream)
    → All IsFunded streams
    → All IsFunded (select p streams)
All-select p [] h = tt
All-select p (s ∷ rest) (h, hs) = elim (Bool-cases (p s)) [
  | inl e ↦ rw e (h, All-select p rest hs)
  | inr e ↦ rw e (All-select p rest hs)
]

div-le : (a b : ℕ) → a ≤ suc b → (a * 100 * percent_scale) / suc b ≤ 100 * percent_scale
div-le a b h = div-le_of_le-mul (suc b) (omega (arith, h))

share-le : (a b : ℕ) → a ≤ b → (s : ℕ) × (share (pos a) (pos b) ≡ pos s) × (s ≤ 100 * percent_scale)
unfolding share
share-le a zero h = (0, refl, omega arith)
share-le a (suc b) h = ((a * 100 * percent_scale) / suc b, ground arith, div-le a b h)

-- The share is neither negative nor over 100 percent; the committed total is the sum of what the NGO's
-- streams count for, and at most what the streams of the platform do.
abbrev pub IsShare : List Stream → NgoImpact → Type 0
IsShare streams body =
    (s : ℕ) × (body.platform_share_percent ≡ pos s)
    × (s ≤ 100 * percent_scale)
    × (body.total_committed ≡ pos (total (select (is_of_ngo body.ngo_id) streams)))
    × (total (select (is_of_ngo body.ngo_id) streams) ≤ total streams)

IsShare-of :
    (locale_le : String → String → Bool) (streams : List Stream) (ngo : NgoRow)
    → All IsFunded streams
    → IsShare streams (ngo_impact_of locale_le streams streams ngo)
unfolding ngo_impact_of
IsShare-of locale_le streams ngo funded =
    let own = total (select (is_of_ngo ngo.id) streams) in
    let le : own ≤ total streams = total-select (is_of_ngo ngo.id) streams in
    let own_sum : sum_committed (pos 0) (map selected (select (is_of_ngo ngo.id) streams))
        ≡ pos own =
      sum-total 0 _ (All-select _ streams funded) ∙ ap pos (omega arith) in
    let all_sum : sum_committed (pos 0) (map selected streams) ≡ pos (total streams) =
      sum-total 0 streams funded ∙ ap pos (omega arith) in
    let (s, e, bound) = share-le own (total streams) le in
    (s, rw (own_sum, all_sum) e, bound, own_sum, le)

body_or : NgoImpact → Reply NgoImpact → NgoImpact
body_or default (refused status problem) = default
body_or default (replied status body) = body

-- No stream having a negative balance or a negative withdrawn amount, and the streams being the same when
-- the route reads those of the NGO and, after that, all of them: the share that an NGO is shown is
-- neither negative nor over 100 percent, in units of 10^-12 percent; its committed total is the sum of
-- what its streams count for, and at most what the streams of the platform count for.
pub ngo_impact-IsShare :
    (locale_le : String → String → Bool) (zod : Zod) (ngo_id : Field) (streams : List Stream)
    (ngos : List NgoRow) {body : NgoImpact}
    → All IsFunded streams
    → ngo_impact locale_le zod ngo_id streams streams ngos ≡ replied 200 body
    → IsShare streams body
unfolding ngo_impact body_or
ngo_impact-IsShare locale_le zod ngo_id streams ngos {body} funded h =
    elim (Option-cases (parse_uuid zod ngo_id)) [
      | inl e ↦ absurd (ground (arith, e, h))
      | inr (id, e) ↦ elim (Option-cases (find_first (has_id id) ngos)) [
        | inl none_found ↦ absurd (ground (arith, e, none_found, h))
        | inr (ngo, found) ↦
            let same : replied 200 (ngo_impact_of locale_le streams streams ngo)
                ≡ replied 200 body =
              ground (arith, e, found, h) in
            subst (IsShare streams) (ap (body_or body) same)
              (IsShare-of locale_le streams ngo funded)
      ]
    ]
