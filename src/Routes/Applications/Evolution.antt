-- ===== src/Routes/Applications/Evolution.antt =====
-- What can become of an application, and what always holds of the table.
use streamgive_backend.Prelude.{
  ℕ, ◌≤◌, String, ◌≡◌, refl, ap, ◌∙◌, ◌⊎◌, inl, inr, Bool, true, false, Option, none, some, List,
  [], ◌∷◌, ◌++◌, ◌==◌, arith, any, All, All-append, find_first, update_where, count_where,
  count_where-append, count_where-none, count_where-update_where, All-update_where, All-update_with,
  All-found, eq_iff, Bool-cases,
}
use streamgive_backend.Prelude.Evolution.{TableEvolves, TableEvolves-update, TableEvolves-trans}
use streamgive_backend.Db.{NgoApplication, Database}
use streamgive_backend.Db.Exec.{Result, Env, World, ReviewStatus, prisma}
use streamgive_backend.Db.Keeps.{Relation, Keeps, Keeps-prisma}
use streamgive_backend.Notifications.ContactVerification.{verify_email, has_application_id}
use streamgive_backend.Routes.Applications.Services.{is_pending}
use streamgive_backend.Routes.Applications.Schema.{Application}
use streamgive_backend.Routes.Applications.Submit.{has_id, blocks, new_application}
use streamgive_backend.Routes.Applications.Review.{is_pending_id, review_row}

abbrev pub is_some {ℓ} : {A : Type ℓ} → Option A → Bool
is_some none = false
is_some (some a) = true

-- The submitted fields never change, and a review is final.
pub record AppEvolves (a b : NgoApplication) : Type 0 where
  pub id : b.id ≡ a.id
  pub owner_address : b.owner_address ≡ a.owner_address
  pub name : b.name ≡ a.name
  pub description : b.description ≡ a.description
  pub website : b.website ≡ a.website
  pub contact_email : b.contact_email ≡ a.contact_email
  pub country : b.country ≡ a.country
  pub created_at : b.created_at ≡ a.created_at
  pub final :
      (is_pending a ≡ true)
      ⊎ ((b.status ≡ a.status)
          × (b.review_note ≡ a.review_note)
          × (b.reviewed_by ≡ a.reviewed_by)
          × (b.reviewed_at ≡ a.reviewed_at))

pub AppEvolves-refl : (a : NgoApplication) → AppEvolves a a
AppEvolves-refl a = record {
  id = refl;
  owner_address = refl;
  name = refl;
  description = refl;
  website = refl;
  contact_email = refl;
  country = refl;
  created_at = refl;
  final = inr (refl, refl, refl, refl);
}

pub AppEvolves-trans : (a b c : NgoApplication) → AppEvolves a b → AppEvolves b c → AppEvolves a c
AppEvolves-trans a b c p q = ground arith

-- A reviewed application has a verified contact email, a reviewer and a time of review.
abbrev pub Reviewed : NgoApplication → Type 0
Reviewed a =
    (is_pending a ≡ true)
    ⊎ ((is_some a.email_verified_at ≡ true)
        × (is_some a.reviewed_by ≡ true)
        × (is_some a.reviewed_at ≡ true))

-- No two applications share an id, and no two that are pending or approved share an owner.
pub record Sound (apps : List NgoApplication) : Type 0 where
  pub ids : (id : String) → count_where (has_id id) apps ≤ 1
  pub owners : (owner_address : String) → count_where (blocks owner_address) apps ≤ 1
  pub reviews : All Reviewed apps

pub record ApplicationsKept (v w : World) : Type 0 where
  pub rows :
      TableEvolves
        (λ (a : NgoApplication). a.id)
        AppEvolves
        v.database.applications
        w.database.applications
  pub sound : Sound v.database.applications → Sound w.database.applications

pub ApplicationsKept-eq :
    (v w : World) → w.database.applications ≡ v.database.applications → ApplicationsKept v w
ApplicationsKept-eq v w e = record {
  rows = λ k x h. (x, ap (find_first (has_id k)) e ∙ h, AppEvolves-refl x);
  sound = λ s. rw e s;
}

pub ApplicationsKept-trans :
    {u v w : World} → ApplicationsKept u v → ApplicationsKept v w → ApplicationsKept u w
ApplicationsKept-trans {u} {v} {w} a b = record {
  rows =
      TableEvolves-trans (λ (x : NgoApplication). x.id) AppEvolves u.database.applications
        v.database.applications w.database.applications AppEvolves-trans a.rows b.rows;
  sound = λ s. b.sound (a.sound s);
}

abbrev pub applications_kept : Relation
applications_kept = record {
  holds = ApplicationsKept;
  same = λ w. ApplicationsKept-eq w w refl;
  after = ApplicationsKept-trans;
  ticks = λ w. ApplicationsKept-eq w _ refl;
  rolls = λ v w h. ApplicationsKept-eq v _ refl;
}

pub ApplicationsKept-prisma :
    (env : Env) {A : Type 0} (f : Database → Result A × Database)
    → ((db : Database) → (f db).1.applications ≡ db.applications)
    → Keeps applications_kept (prisma env f)
ApplicationsKept-prisma env f h = Keeps-prisma env f (λ w. ApplicationsKept-eq w _ (h w.database))

any-count :
    (q : NgoApplication → Bool) (xs : List NgoApplication) → any q xs ≡ false → count_where q xs ≡ 0
any-count q [] h = refl
any-count q (x ∷ xs) h = ground (arith, any-count q xs)

-- A new application, where its id is free and nothing blocks its owner.
module _ (id : String) (now : ℕ) (submitted : Application) (apps : List NgoApplication) where
  abbrev row : NgoApplication
  row = new_application id now submitted

  pub Sound-insert :
      any (has_id id) apps ≡ false
      → find_first (blocks submitted.owner_address) apps ≡ none
      → Sound apps
      → Sound (apps ++ row ∷ [])
  Sound-insert fresh free s = record {
    ids = λ k.
        let added = count_where-append (has_id k) apps (row ∷ []) in
        let old = s.ids k in
        elim (Bool-cases (id == k)) [
          | inl e ↦
              let zero_at = any-count (has_id id) apps fresh in
              let same = (eq_iff id k).0 e in
              let zero_k = ap (λ t. count_where (has_id t) apps) same in
              ground (arith, added, zero_at, zero_k, e)
          | inr e ↦ ground (arith, added, old, e)
        ];
    owners = λ o.
        let added = count_where-append (blocks o) apps (row ∷ []) in
        let old = s.owners o in
        elim (Bool-cases (submitted.owner_address == o)) [
          | inl e ↦
              let zero_at = count_where-none (blocks submitted.owner_address) apps free in
              let same = (eq_iff submitted.owner_address o).0 e in
              let zero_o = ap (λ t. count_where (blocks t) apps) same in
              ground (arith, added, zero_at, zero_o, e)
          | inr e ↦ ground (arith, added, old, e)
        ];
    reviews = All-append Reviewed apps (row ∷ []) s.reviews (inl refl, tt);
  }

-- The contact email is verified, now or again.
module _ (id : String) (at updated : ℕ) (apps : List NgoApplication) where
  pub TableEvolves-verify :
      TableEvolves
        (λ (a : NgoApplication). a.id)
        AppEvolves
        apps
        (update_where (has_application_id id) (verify_email at updated) apps)
  TableEvolves-verify =
      TableEvolves-update (λ (a : NgoApplication). a.id) AppEvolves AppEvolves-refl
        (has_application_id id) (verify_email at updated) apps (λ x e. refl) (λ x e. ground arith)

  pub Sound-verify :
      Sound apps → Sound (update_where (has_application_id id) (verify_email at updated) apps)
  Sound-verify s = record {
    ids = λ k.
        let kept =
          count_where-update_where (has_id k) (has_application_id id) (verify_email at updated) apps
            (λ x e h. h) in
        omega (arith, kept, s.ids k);
    owners = λ o.
        let kept =
          count_where-update_where (blocks o) (has_application_id id) (verify_email at updated) apps
            (λ x e h. h) in
        omega (arith, kept, s.owners o);
    reviews =
        All-update_where Reviewed (has_application_id id) (verify_email at updated) apps
          (λ x e r. ground arith) s.reviews;
  }

-- A pending application is reviewed.
module _ (status : ReviewStatus) (id : String) (remark : Option String) (reviewed_by : String)
    (at updated : ℕ) (apps : List NgoApplication) where
  abbrev reviewed : NgoApplication → NgoApplication
  reviewed = review_row status remark reviewed_by at updated

  pub TableEvolves-review :
      TableEvolves
        (λ (a : NgoApplication). a.id)
        AppEvolves
        apps
        (update_where (is_pending_id id) reviewed apps)
  TableEvolves-review =
      TableEvolves-update (λ (a : NgoApplication). a.id) AppEvolves AppEvolves-refl
        (is_pending_id id) reviewed apps (λ x e. refl) (λ x e. ground arith)

  pub Sound-review :
      (found : NgoApplication)
      → find_first (has_id id) apps ≡ some found
      → is_some found.email_verified_at ≡ true
      → Sound apps
      → Sound (update_where (is_pending_id id) reviewed apps)
  Sound-review found h email s = record {
    ids = λ k.
        let kept =
          count_where-update_where (has_id k) (is_pending_id id) reviewed apps (λ x e h. h) in
        omega (arith, kept, s.ids k);
    owners = λ o.
        let kept =
          count_where-update_where (blocks o) (is_pending_id id) reviewed apps
            (λ x e h. ground arith) in
        omega (arith, kept, s.owners o);
    reviews =
        All-update_with Reviewed (λ x. has_id id x ≡ true → x ≡ found) (is_pending_id id) reviewed
          apps (λ x p r only. inr (email_of x p only, refl, refl)) s.reviews
          (All-found (has_id id) apps found (s.ids id) h);
  }
    where
      email_of :
          (x : NgoApplication)
          → is_pending_id id x ≡ true
          → (has_id id x ≡ true → x ≡ found)
          → is_some x.email_verified_at ≡ true
      email_of x p only =
          let same = only (ground (arith, p)) in
          ap (λ (a : NgoApplication). is_some a.email_verified_at) same ∙ email
