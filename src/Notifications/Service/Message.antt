-- ===== src/Notifications/Service/Message.antt =====
-- The values of src/notifications/service.ts: ids, targets, outcomes, and rows of the log.
use streamgive_backend.Prelude.{
  ℕ, zero, suc, String, Bool, true, false, ◌&&◌, Option, none, some, List, [], ◌∷◌, ◌++◌, ◌==◌, any,
  length, ltb, leb, min, if◌then◌else◌, ◌<>◌, ℤ, pos, negsuc, show_ℕ,
}
use streamgive_backend.Db.{NotificationLog}
use streamgive_backend.Db.Exec.{
  Result, Thrown, error, object, thrown_value, NotificationEvent, stream_created, stream_withdrawn,
  stream_cancelled, ngo_registered, ngo_approved, ngo_revoked, application_submitted,
  application_reviewed,
}

-- The module's `deliveryId`, or the error of reading it; the configuration; `createHmac('sha256', secret)`
-- with its hex digest; and `JSON.stringify`.
pub record Webhooks : Type 0 where
  pub delivery_id : Result (Option String)
  pub url : Option String
  pub secret : Option String
  pub hmac : (secret payload : String) → String
  pub stringify : NotificationEvent → String

abbrev pub max_delivered_event_ids : ℕ
max_delivered_event_ids = 10000

abbrev pub signature_header : String
signature_header = "x-streamgive-signature"

abbrev pub timestamp_header : String
timestamp_header = "x-streamgive-timestamp"

abbrev pub delivery_header : String
delivery_header = "x-streamgive-delivery"

-- A configured text that is not empty.
abbrev pub truthy : Option String → Option String
truthy none = none
truthy (some s) = if s == "" then none else some s

abbrev pub event_type : NotificationEvent → String
event_type (stream_created source id donor ngo) = "stream_created"
event_type (stream_withdrawn source id amount) = "stream_withdrawn"
event_type (stream_cancelled source id settled refund) = "stream_cancelled"
event_type (ngo_registered source owner ngo) = "ngo_registered"
event_type (ngo_approved source owner ngo) = "ngo_approved"
event_type (ngo_revoked source owner ngo) = "ngo_revoked"
event_type (application_submitted source id owner name) = "application_submitted"
event_type (application_reviewed source id owner status remark) = "application_reviewed"

abbrev pub event_id : NotificationEvent → Option String
event_id (stream_created source id donor ngo) = some source
event_id (stream_withdrawn source id amount) = some source
event_id (stream_cancelled source id settled refund) = some source
event_id (ngo_registered source owner ngo) = some source
event_id (ngo_approved source owner ngo) = some source
event_id (ngo_revoked source owner ngo) = some source
event_id (application_submitted source id owner name) = source
event_id (application_reviewed source id owner status remark) = source

-- `values().next().value` is deleted while there are too many.
unfoldable pub evict : ℕ → List String → List String
evict limit [] = []
evict limit (x ∷ xs) =
    let rest = evict limit xs in if ltb limit (suc (length xs)) then rest else x ∷ xs

abbrev pub is_text : String → String → Bool
is_text s t = t == s

-- `rememberDelivered`: a `Set` keeps the order of insertion.
unfoldable pub remember_delivered : ℕ → String → List String → List String
unfolding evict
remember_delivered limit id ids = evict limit (if any (is_text id) ids then ids else ids ++ id ∷ [])

-- `Number(process.env.NOTIFY_WEBHOOK_TIMEOUT_MS)`, `none` where it is no safe integer.
unfoldable pub get_webhook_timeout_ms : Option ℤ → ℕ
get_webhook_timeout_ms none = 3000
get_webhook_timeout_ms (some (negsuc n)) = 3000
get_webhook_timeout_ms (some (pos zero)) = 3000
get_webhook_timeout_ms (some (pos (suc n))) = min (suc n) 2147483647

pub record WebhookTarget : Type 0 where
  pub url : String
  pub secret : Option String
  pub channel : String

pub record WebhookResult : Type 0 where
  pub success : Bool
  pub record_noop : Bool

-- `err instanceof Error ? err.name : 'unknown_error'`
abbrev pub error_name : Thrown → String
error_name (error class name message code) = name
error_name (object message) = "unknown_error"
error_name (thrown_value text) = "unknown_error"

-- What became of the request: `success`, and `error` unless it is `undefined`.
pub record Outcome : Type 0 where
  pub success : Bool
  pub problem : Option String

abbrev pub answered : ℕ → Outcome
answered status =
    if leb 200 status && ltb status 300
    then record { success = true; problem = none }
    else record { success = false; problem = some ("status " <> show_ℕ status) }

abbrev pub has_event_channel : String → String → NotificationLog → Bool
has_event_channel id channel row =
    elim row.event_id [ none ↦ false | some event ↦ event == id ] && row.channel == channel

abbrev pub is_delivered : String → String → NotificationLog → Bool
is_delivered id channel row = has_event_channel id channel row && row.success

-- An `undefined` error leaves the column alone.
abbrev pub update_log : Outcome → NotificationLog → NotificationLog
update_log outcome row = record row {
  success = outcome.success;
  error = elim outcome.problem [ none ↦ row.error | some e ↦ some e ];
}

abbrev pub taken : Option String → String → List NotificationLog → Bool
taken none channel rows = false
taken (some id) channel rows = any (has_event_channel id channel) rows

-- `data`, with the id and the time that the database fills in.
abbrev pub new_log : Option String → String → String → Outcome → String → ℕ → NotificationLog
new_log source type channel outcome id created_at = record {
  id = id;
  event_id = source;
  event_type = type;
  channel = channel;
  success = outcome.success;
  error = outcome.problem;
  created_at = created_at;
}
