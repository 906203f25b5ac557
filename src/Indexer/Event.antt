-- ===== src/Indexer/Event.antt =====
-- A contract event as the handlers read it, and what the program takes from the Stellar SDK.
-- `ScVal` and the SDK's functions are parameters; so is `toString()` on what the SDK decodes.
use streamgive_backend.Prelude.{ℕ, String, Option, none, some, List, [], ◌∷◌, ℤ, get_elem?}
use streamgive_backend.Db.Exec.{Result, ok, err, type_error_thrown}

-- What `scValToNative` returns: the shapes that the handlers look at, and any other.
mutual
  pub data Native : Type 0 where
    text : String → Native
    bigint : ℤ → Native
    vec : Natives → Native
    other : Native

  pub data Natives : Type 0 where
    end : Natives
    item : Native → Natives → Natives

abbrev pub to_list : Natives → List Native
to_list end = []
to_list (item n ns) = n ∷ to_list ns

pub record Sdk (ScVal : Type 0) : Type 0 where
  pub sc_val_to_native : Option ScVal → Result Native
  pub to_string : Native → Result String
  pub to_xdr : ScVal → String
  pub from_xdr : String → Result ScVal

-- `ledgerClosedAt` is `none` where the field is missing; `new Date(undefined)` is an invalid date.
pub record ContractEvent (ScVal : Type 0) : Type 0 where
  pub id : String
  pub ledger : ℕ
  pub contract_id : Option String
  pub tx_hash : Option String
  pub ledger_closed_at : Option ℕ
  pub topic : List ScVal
  pub value : Option ScVal

-- The casts of the handlers: using a value of another shape throws a `TypeError`.
abbrev pub as_bigint : Native → Result ℤ
as_bigint (bigint z) = ok z
as_bigint n = err (type_error_thrown "Cannot mix BigInt and other types")

abbrev pub as_text : Native → Result String
as_text (text s) = ok s
as_text n = err (type_error_thrown "not a string")

-- `const [a, b, …] = native`
abbrev pub as_items : Native → Result (List Native)
as_items (vec ns) = ok (to_list ns)
as_items n = err (type_error_thrown "object is not iterable")

abbrev pub bigint_or_undefined : Option Native → Result ℤ
bigint_or_undefined none = err (type_error_thrown "Cannot read properties of undefined")
bigint_or_undefined (some n) = as_bigint n

abbrev pub bigint_at : List Native → ℕ → Result ℤ
bigint_at ns i = bigint_or_undefined (get_elem? ns i)

module _ {ScVal : Type 0} (sdk : Sdk ScVal) where
  abbrev pub string_or_undefined : Option Native → Result String
  string_or_undefined none = err (type_error_thrown "Cannot read properties of undefined")
  string_or_undefined (some n) = sdk.to_string n

  abbrev pub string_at : List Native → ℕ → Result String
  string_at ns i = string_or_undefined (get_elem? ns i)
