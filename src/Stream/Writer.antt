-- ===== src/Stream/Writer.antt =====
-- `events` of chain/internal/api/api.go: what is written for each event and each heartbeat.
-- encoding/json is a record.
use l1_modular_blockchain.Common.{
  ◌≡◌, String, Bool, true, false, ◌||◌, Option, some, List, [], ◌∷◌, ◌++◌, map, if◌then◌else◌, All,
}
use l1_modular_blockchain.Types.{
  Event, Payload, service_registered, inference_requested, result_submitted, request_finalized,
  request_refunded, block_committed, domain_registered, request_challenged, request_slashed,
  request_vouched, request_dismissed, service_updated, service_deactivated, domain_deactivated,
  request_voided,
}
use l1_modular_blockchain.Stream.Text.{
  Text, newline, codes, trim_space, same_text, split_from, is_line_end,
}

abbrev pub OnOneLine : Text → Type 0
OnOneLine = All λ c. is_line_end c ≡ false

-- `json.Marshal` of an event, which is an object on one line, and `json.Unmarshal`.
pub record EventJson : Type 0 where
  pub marshal : Event → Text
  pub unmarshal : Text → Option Event
  pub marshal-object :
      (e : Event) → (fields : Text) × (marshal e ≡ b'{' ∷ (fields ++ b'}' ∷ [])) × OnOneLine fields

-- What was encoded of an event is read back.
abbrev pub ReadsBack : EventJson → Event → Type 0
ReadsBack json e = json.unmarshal (json.marshal e) ≡ some e

-- The texts of `EventType`.
unfoldable pub event_type : Payload → String
event_type (service_registered p) = "ServiceRegistered"
event_type (inference_requested p) = "InferenceRequested"
event_type (result_submitted p) = "ResultSubmitted"
event_type (request_finalized p) = "RequestFinalized"
event_type (request_refunded p) = "RequestRefunded"
event_type (block_committed p) = "BlockCommitted"
event_type (domain_registered p) = "DomainRegistered"
event_type (request_challenged p) = "Challenged"
event_type (request_slashed p) = "RequestSlashed"
event_type (request_vouched p) = "Vouched"
event_type (request_dismissed p) = "RequestDismissed"
event_type (service_updated p) = "ServiceUpdated"
event_type (service_deactivated p) = "ServiceDeactivated"
event_type (domain_deactivated p) = "DomainDeactivated"
event_type (request_voided p) = "RequestVoided"

abbrev pieces_of : Text → List Text
pieces_of [] = []
pieces_of (c ∷ cs) = map trim_space (split_from b',' [] (c ∷ cs))

-- The query value `types`: no list at all if it is blank.
unfoldable pub wanted_types : Text → List Text
wanted_types query = pieces_of (trim_space query)

abbrev pub is_member : Text → List Text → Bool
is_member t [] = false
is_member t (u ∷ us) = same_text t u || is_member t us

abbrev pub is_sent : List Text → Text → Bool
is_sent [] t = true
is_sent (u ∷ us) t = is_member t (u ∷ us)

-- What the handler's loop waits for.
pub data Turn : Type 0 where
  heartbeat : Turn
  emitted : Event → Turn

unfoldable pub write_event : EventJson → Event → Text
unfolding codes event_type
write_event json e =
    codes "event: "
    ++ (codes (event_type e.payload)
        ++ (newline ∷ (codes "data: " ++ (json.marshal e ++ newline ∷ newline ∷ []))))

unfoldable pub write_turn : EventJson → List Text → Turn → Text
unfolding codes event_type
write_turn json wanted heartbeat = codes ": ping" ++ newline ∷ newline ∷ []
write_turn json wanted (emitted e) =
    if is_sent wanted (codes (event_type e.payload)) then write_event json e else []

unfoldable pub write_stream : EventJson → List Text → List Turn → Text
write_stream json wanted [] = []
write_stream json wanted (t ∷ ts) = write_turn json wanted t ++ write_stream json wanted ts

-- The events that the loop sends.
abbrev pub sent_events : List Text → List Turn → List Event
sent_events wanted [] = []
sent_events wanted (heartbeat ∷ ts) = sent_events wanted ts
sent_events wanted (emitted e ∷ ts) =
    if is_sent wanted (codes (event_type e.payload))
    then e ∷ sent_events wanted ts
    else sent_events wanted ts
