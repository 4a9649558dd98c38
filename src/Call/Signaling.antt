-- ===== src/Call/Signaling.antt =====
-- The arms of `handle_client_message` for calls (crates/api/src/handlers/ws/handlers.rs). A handler
-- takes the table to its new state and says what it sends, in order. Redis and the push queue accept
-- what is sent; offers, answers and candidates are opaque texts. An arm runs whole; what other
-- tasks do between the two writes of `call_initiate` is in Call/Signaling/Race.antt.
pub mod Sessions
pub mod Endings
pub mod Race
use mesty_api.Common.{ℕ, String, Option, List, [], ◌∷◌, str_eq, if◌then◌else◌, ◌==◌, unwrap_or}
use mesty_api.DomainError.{DomainError, display, Result, ok, err}
use mesty_api.Call.CallType
use mesty_api.Call.CallType.{CallType, audio, video}
use mesty_api.Call.CallStatus
use mesty_api.Call.CallStatus.{CallStatus, ended, missed, rejected, busy}
use mesty_api.Call.Repository.{Call, CallDb}
use mesty_api.Call.Service.{initiate_call, mark_ringing, accept_call, end_call}

-- the call variants of `WsClientMessage`
pub data CallMessage : Type 0 where
  call_initiate : (receiver_id : ℕ) (call_type offer : String) → CallMessage
  call_accept : (call_id : ℕ) (answer : String) → CallMessage
  call_reject : (call_id : ℕ) (reason : Option String) → CallMessage
  call_ice_candidate : (call_id receiver_id : ℕ) (candidate : String) → CallMessage
  call_hangup : (call_id : ℕ) → CallMessage

-- the JSON events, without their timestamps
pub data Event : Type 0 where
  incoming : (call_id caller_id : ℕ) (call_type offer : String) → Event
  accepted : (call_id receiver_id : ℕ) (answer : String) → Event
  rejected_event : (call_id receiver_id : ℕ) (reason : String) → Event
  ice_candidate : (call_id sender_id : ℕ) (candidate : String) → Event
  ended_event : (call_id ended_by : ℕ) (status : String) → Event
  error : (message : String) → Event

-- What a handler sends: an event on a user's channel, an event on its own socket, or a push job.
pub data Sent : Type 0 where
  publish : (user_id : ℕ) → Event → Sent
  reply : Event → Sent
  push : (user_id call_id caller_id : ℕ) (call_type : String) → Sent

parse_type : String → CallType
parse_type s = if str_eq s "video" then video else audio

-- the rest of the `call_initiate` arm, by the outcome of `initiate_call`
unfoldable pub on_initiated :
    ℕ → ℕ → ℕ → CallType → String → Result Call × CallDb → CallDb × List Sent
on_initiated now caller_id receiver_id type offer (err e, s) = (s, reply (error (display e)) ∷ [])
on_initiated now caller_id receiver_id type offer (ok call, s) = (
  (mark_ringing now call.id s).1,
  publish receiver_id (incoming call.id caller_id (CallType.as_db_str type) offer)
      ∷ push receiver_id call.id caller_id (CallType.as_db_str type)
      ∷ [],
)

unfoldable pub on_accepted : ℕ → ℕ → String → Result Call × CallDb → CallDb × List Sent
on_accepted call_id receiver_id answer (err _, s) = (s, [])
on_accepted call_id receiver_id answer (ok call, s) =
    (s, publish call.caller_id (accepted call_id receiver_id answer) ∷ [])

unfoldable pub on_rejected : ℕ → ℕ → String → Result Call × CallDb → CallDb × List Sent
on_rejected call_id user_id reason (err _, s) = (s, [])
on_rejected call_id user_id reason (ok call, s) =
    (s, publish call.caller_id (rejected_event call_id user_id reason) ∷ [])

abbrev pub peer : ℕ → Call → ℕ
peer user_id call = if call.caller_id == user_id then call.receiver_id else call.caller_id

unfoldable pub on_hung_up : ℕ → ℕ → Result Call × CallDb → CallDb × List Sent
on_hung_up call_id user_id (err _, s) = (s, [])
on_hung_up call_id user_id (ok call, s) = (
  s,
  publish (peer user_id call) (ended_event call_id user_id (CallStatus.as_db_str call.status)) ∷ [],
)

-- `end_call(…, Ended)`, and on an error `end_call(…, Missed)`
retry_missed : ℕ → ℕ → ℕ → Result Call × CallDb → Result Call × CallDb
retry_missed now call_id user_id (ok call, s) = (ok call, s)
retry_missed now call_id user_id (err _, s) = end_call now call_id user_id missed s

unfoldable pub hang_up : ℕ → ℕ → ℕ → CallDb → Result Call × CallDb
unfolding retry_missed
hang_up now call_id user_id s =
    retry_missed now call_id user_id (end_call now call_id user_id ended s)

-- `busy` as the reason of a rejection, and any other reason
unfoldable pub reject_status : String → CallStatus
reject_status reason = if str_eq reason "busy" then busy else rejected

-- `user_id` sent the message; `id` is the id that the table gives to a new call.
unfoldable pub handle_client_message : ℕ → ℕ → ℕ → CallMessage → CallDb → CallDb × List Sent
unfolding parse_type
handle_client_message id now user_id (call_initiate receiver_id call_type offer) s =
    on_initiated now user_id receiver_id (parse_type call_type) offer
      (initiate_call id now user_id receiver_id (parse_type call_type) s)
handle_client_message id now user_id (call_accept call_id answer) s =
    on_accepted call_id user_id answer (accept_call now call_id user_id s)
handle_client_message id now user_id (call_reject call_id reason) s =
    let reason_str = unwrap_or reason "rejected" in
    on_rejected call_id user_id reason_str
      (end_call now call_id user_id (reject_status reason_str) s)
handle_client_message id now user_id (call_ice_candidate call_id receiver_id candidate) s =
    (s, publish receiver_id (ice_candidate call_id user_id candidate) ∷ [])
handle_client_message id now user_id (call_hangup call_id) s =
    on_hung_up call_id user_id (hang_up now call_id user_id s)
