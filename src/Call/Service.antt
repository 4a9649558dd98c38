-- ===== src/Call/Service.antt =====
-- `CallService` (crates/domain/src/call/service.rs). Each method is one action on the table; the
-- steps of its caller stand in Call/Signaling.antt.
pub mod Transitions
pub mod Validity
pub mod Exclusive
use mesty_api.Common.{ℕ, Bool, true, false, Option, none, some, not, ◌&&◌, ◌||◌, ◌==◌, concat}
use mesty_api.DomainError.{
  not_found, unauthorized, bad_request, conflict, Result, ok_or, pure, throw, throw_if, ◌>>=◌, ◌>>◌,
}
use mesty_api.Call.CallType.{CallType}
use mesty_api.Call.CallStatus
use mesty_api.Call.CallStatus.{
  CallStatus, initiated, ringing, answered, ended, missed, rejected, busy,
}
use mesty_api.Call.Repository.{
  Call, CallDb, create, find_by_id, update_status, is_user_in_active_call,
}

unfoldable pub initiate_call : ℕ → ℕ → ℕ → ℕ → CallType → CallDb → Result Call × CallDb
initiate_call id now caller_id receiver_id call_type = do
  throw_if (caller_id == receiver_id) (bad_request "Cannot call yourself")
  throw_if (← is_user_in_active_call receiver_id)
      (conflict "Receiver is currently busy in another call")
  throw_if (← is_user_in_active_call caller_id) (conflict "You are already in an active call")
  create id now (record { caller_id = caller_id; receiver_id = receiver_id; call_type = call_type })

unfoldable pub mark_ringing : ℕ → ℕ → CallDb → Result Call × CallDb
mark_ringing now call_id = update_status now call_id ringing none none

-- `matches!(call.status, CallStatus::Initiated | CallStatus::Ringing)`
abbrev pub is_pending : CallStatus → Bool
is_pending initiated = true
is_pending ringing = true
is_pending _ = false

unfoldable pub accept_call : ℕ → ℕ → ℕ → CallDb → Result Call × CallDb
accept_call now call_id user_id = do
  call ← ok_or (← find_by_id call_id) (not_found "Call not found")
  throw_if (not (call.receiver_id == user_id)) (unauthorized "Only the receiver can accept a call")
  throw_if (not (is_pending call.status))
      (bad_request (concat "Cannot accept a call in status: " (CallStatus.debug call.status)))
  update_status now call_id answered (some now) none

-- the statuses that `end_call` accepts as terminal
abbrev pub is_terminal : CallStatus → Bool
is_terminal ended = true
is_terminal missed = true
is_terminal rejected = true
is_terminal busy = true
is_terminal _ = false

unfoldable pub end_call : ℕ → ℕ → ℕ → CallStatus → CallDb → Result Call × CallDb
end_call now call_id user_id requested_status = do
  call ← ok_or (← find_by_id call_id) (not_found "Call not found")
  throw_if (not (call.caller_id == user_id) && not (call.receiver_id == user_id))
      (unauthorized "You are not a participant of this call")
  throw_if (not (CallStatus.is_active call.status))
      (bad_request (concat "Call is already in a terminal state: " (CallStatus.debug call.status)))
  throw_if (not (is_terminal requested_status)) (bad_request "Invalid terminal status requested")
  update_status now call_id requested_status call.started_at (some now)
