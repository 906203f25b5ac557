-- ===== src/Routes/NgoRows.antt =====
-- The rows of the table `ngos` with the columns that only the public routes read, and
-- src/routes/ngoName.ts.
use streamgive_backend.Prelude.{ℕ, String, Bool, Option, none, some, ◌==◌, if◌then◌else◌}

pub record NgoRow : Type 0 where
  pub id : String
  pub owner_address : String
  pub name : String
  pub display_name : Option String
  pub verified : Bool
  pub created_at : ℕ
  pub updated_at : ℕ

abbrev or_null : String → Option String
or_null s = if s == "" then none else some s

-- `ngo.displayName || ngo.name || null`
pub get_public_ngo_name : NgoRow → Option String
get_public_ngo_name ngo = elim ngo.display_name [
  | none ↦ or_null ngo.name
  | some shown ↦ if shown == "" then or_null ngo.name else some shown
]

abbrev pub has_id : String → NgoRow → Bool
has_id id ngo = ngo.id == id
