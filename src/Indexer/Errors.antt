-- ===== src/Indexer/Errors.antt =====
-- `isDecodeOrValidationError` and `isLedgerOutOfRange` of src/indexer/worker.ts: which failures of a
-- handler are permanent, and which failure of the RPC means that the checkpoint has aged out.
use streamgive_backend.Prelude.{
  String, Bool, true, false, ◌||◌, not, ◌&&◌, List, [], ◌∷◌, codes, to_lower, includes, any,
}
use streamgive_backend.Db.Exec.{ErrorClass, plain_error, Thrown, error, object, thrown_value}

abbrev pub transient_words : List String
transient_words =
    "transient" ∷ "timeout" ∷ "connection" ∷ "econnrefused" ∷ "database" ∷ "deadlock" ∷ "network"
    ∷ "econnreset" ∷ "socket" ∷ "service_unavailable" ∷ []

abbrev pub permanent_words : List String
permanent_words =
    "scval" ∷ "xdr" ∷ "strkey" ∷ "decode" ∷ "validation" ∷ "unknown stream" ∷ "not iterable"
    ∷ "malformed" ∷ "cannot read properties" ∷ []

abbrev pub permanent_names : List String
permanent_names = "validation" ∷ "zod" ∷ "decode" ∷ []

-- `text.toLowerCase().includes(word)` for one of the words
unfoldable pub mentions : String → List String → Bool
mentions text words = any (λ word. includes (to_lower (codes text)) (codes word)) words

abbrev pub is_standard_class : ErrorClass → Bool
is_standard_class plain_error = false
is_standard_class _ = true

unfoldable pub is_decode_or_validation_error : Thrown → Bool
is_decode_or_validation_error (error class name message code) =
    is_standard_class class
    || mentions name permanent_names
    || (not (mentions message transient_words) && mentions message permanent_words)
is_decode_or_validation_error (object message) = false
is_decode_or_validation_error (thrown_value text) = false

abbrev out_of_range_message : String
out_of_range_message = "startLedger must be within the ledger range"

unfoldable pub is_ledger_out_of_range : Thrown → Bool
is_ledger_out_of_range (error class name message code) =
    includes (codes message) (codes out_of_range_message)
is_ledger_out_of_range (object message) = includes (codes message) (codes out_of_range_message)
is_ledger_out_of_range (thrown_value text) = false
