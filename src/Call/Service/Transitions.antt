-- ===== src/Call/Service/Transitions.antt =====
-- Each method of `CallService` leaves the table alone or makes one of three kinds of change.
use mesty_api.Common.{
  ℕ, ◌≡◌, ◌≢◌, refl, inl, inr, true, false, Option, none, some, ◌∷◌, ◌&&◌, ◌||◌, not, ◌==◌,
  if◌then◌else◌, any, find?, arith, concat, Option-cases, Bool-cases,
}
use mesty_api.DomainError.{
  DomainError, not_found, unauthorized, bad_request, conflict, Result, ok, err,
}
use mesty_api.Call.CallType.{CallType}
use mesty_api.Call.CallStatus.{CallStatus, is_active, debug, ringing, answered}
use mesty_api.Call.Repository.{
  Call, CallDb, NewCall, has_id, set_status, create, new_row, is_user_in_active_call,
  in_active_call,
}
use mesty_api.Call.Repository.Queries.{
  with_status, find_by_id_lem, update_status_found, update_status_missing, create-eq-ok,
  create-eq-err,
}
use mesty_api.Call.Service.{
  initiate_call, mark_ringing, accept_call, end_call, is_pending, is_terminal,
}

abbrev pub call_at : ℕ → CallDb → Option Call
call_at i s = find? (has_id i) s.calls

-- What one method may do to the table: nothing; add a call between two users who are in no active
-- call; or set the status of the call that it finds.
pub data Transition (s t : CallDb) : Type 0 where
  stay : t ≡ s → Transition s t
  begin :
      (id now : ℕ) (new : NewCall)
      → new.caller_id ≢ new.receiver_id
      → call_at id s ≡ none
      → any (in_active_call new.caller_id) s.calls ≡ false
      → any (in_active_call new.receiver_id) s.calls ≡ false
      → t ≡ record s { calls = new_row id now new ∷ s.calls }
      → Transition s t
  ring :
      (i now : ℕ) (c : Call)
      → call_at i s ≡ some c
      → t ≡ with_status ringing none none now i s
      → Transition s t
  answer :
      (i now : ℕ) (c : Call)
      → call_at i s ≡ some c
      → is_pending c.status ≡ true
      → t ≡ with_status answered (some now) none now i s
      → Transition s t
  finish :
      (i now : ℕ) (c : Call) (status : CallStatus)
      → call_at i s ≡ some c
      → is_active c.status ≡ true
      → is_terminal status ≡ true
      → t ≡ with_status status c.started_at (some now) now i s
      → Transition s t

-- A call that is set to ringing must still be active.
abbrev pub Orderly : {s t : CallDb} → Transition s t → Type 0
Orderly (ring i now c _ _) = is_active c.status ≡ true
Orderly (stay _) = Unit
Orderly (begin _ _ _ _ _ _ _ _) = Unit
Orderly (answer _ _ _ _ _ _) = Unit
Orderly (finish _ _ _ _ _ _ _ _) = Unit

-- An orderly change.
abbrev pub Step : CallDb → CallDb → Type 0
Step s t = (step : Transition s t) × Orderly step

pub mark_ringing_found :
    (now i : ℕ) (s : CallDb) (c : Call)
    → call_at i s ≡ some c
    → mark_ringing now i s
      ≡ (ok (set_status ringing none none now c), with_status ringing none none now i s)
unfolding mark_ringing
mark_ringing_found now i s c e = update_status_found now i ringing none none s c e

pub mark_ringing-Transition : (now i : ℕ) (s : CallDb) → Transition s (mark_ringing now i s).1
unfolding mark_ringing
mark_ringing-Transition now i s = elim (Option-cases (call_at i s)) [
  | inl e ↦ stay (rw (update_status_missing now i ringing none none s e))
  | inr (c, e) ↦ ring i now c e (rw (update_status_found now i ringing none none s c e))
]

-- How `accept_call` ends on a call that exists: by its guards, in order, or by the update.
pub accept_call_lem :
    (now i u : ℕ) (s : CallDb) (c : Call)
    → call_at i s ≡ some c
    → accept_call now i u s ≡ (
        if not (c.receiver_id == u)
        then (err (unauthorized "Only the receiver can accept a call"), s)
        else if not (is_pending c.status)
        then (err (bad_request (concat "Cannot accept a call in status: " (debug c.status))), s)
        else (
          ok (set_status answered (some now) none now c),
          with_status answered (some now) none now i s,
        ))
unfolding accept_call
accept_call_lem now i u s c e =
    ground (arith, find_by_id_lem i s, update_status_found now i answered (some now) none s c e)

pub accept_call_missing :
    (now i u : ℕ) (s : CallDb)
    → call_at i s ≡ none
    → accept_call now i u s ≡ (err (not_found "Call not found"), s)
unfolding accept_call
accept_call_missing now i u s e = ground (arith, find_by_id_lem i s)

pub end_call_lem :
    (now i u : ℕ) (status : CallStatus) (s : CallDb) (c : Call)
    → call_at i s ≡ some c
    → end_call now i u status s ≡ (
        if not (c.caller_id == u) && not (c.receiver_id == u)
        then (err (unauthorized "You are not a participant of this call"), s)
        else if not (is_active c.status)
        then (
          err (bad_request (concat "Call is already in a terminal state: " (debug c.status))),
          s,
        )
        else if not (is_terminal status)
        then (err (bad_request "Invalid terminal status requested"), s)
        else (
          ok (set_status status c.started_at (some now) now c),
          with_status status c.started_at (some now) now i s,
        ))
unfolding end_call
end_call_lem now i u status s c e =
    ground
      (arith, find_by_id_lem i s, update_status_found now i status c.started_at (some now) s c e)

pub end_call_missing :
    (now i u : ℕ) (status : CallStatus) (s : CallDb)
    → call_at i s ≡ none
    → end_call now i u status s ≡ (err (not_found "Call not found"), s)
unfolding end_call
end_call_missing now i u status s e = ground (arith, find_by_id_lem i s)

pub accept_call-Step : (now i u : ℕ) (s : CallDb) → Step s (accept_call now i u s).1
accept_call-Step now i u s = elim (Option-cases (call_at i s)) [
  | inl e ↦ (stay (rw (accept_call_missing now i u s e)), tt)
  | inr (c, e) ↦ elim (Bool-cases (c.receiver_id == u && is_pending c.status)) [
    | inl allowed ↦
        (answer i now c e (ground arith) (ground (arith, accept_call_lem now i u s c e)), tt)
    | inr refused ↦ (stay (ground (arith, accept_call_lem now i u s c e)), tt)
  ]
]

pub end_call-Step :
    (now i u : ℕ) (status : CallStatus) (s : CallDb) → Step s (end_call now i u status s).1
end_call-Step now i u status s = elim (Option-cases (call_at i s)) [
  | inl e ↦ (stay (rw (end_call_missing now i u status s e)), tt)
  | inr (c, e) ↦
      elim (Bool-cases
        ((c.caller_id == u || c.receiver_id == u) && is_active c.status && is_terminal status)) [
          | inl allowed ↦ (
            finish i now c status e (ground arith) (ground arith)
                (ground (arith, end_call_lem now i u status s c e)),
            tt,
          )
          | inr refused ↦ (stay (ground (arith, end_call_lem now i u status s c e)), tt)
        ]
]

-- `initiate_call` refuses a call to oneself and calls of busy users, in this order; what is left is
-- up to the table.
pub initiate_call_lem :
    (id now a b : ℕ) (type : CallType) (s : CallDb)
    → initiate_call id now a b type s ≡ (
        if a == b
        then (err (bad_request "Cannot call yourself"), s)
        else if any (in_active_call b) s.calls
        then (err (conflict "Receiver is currently busy in another call"), s)
        else if any (in_active_call a) s.calls
        then (err (conflict "You are already in an active call"), s)
        else create id now (record { caller_id = a; receiver_id = b; call_type = type }) s)
unfolding initiate_call is_user_in_active_call
initiate_call_lem id now a b type s = ground arith

-- A call that is begun: the row is new, its parties were free, and it is found under its id.
pub initiate_call-eq-ok :
    (id now a b : ℕ) (type : CallType) (s : CallDb) {c : Call}
    → (initiate_call id now a b type s).0 ≡ ok c
    → let t = (initiate_call id now a b type s).1 in
      (a ≢ b)
      × (call_at id s ≡ none)
      × (any (in_active_call a) s.calls ≡ false)
      × (any (in_active_call b) s.calls ≡ false)
      × (c ≡ new_row id now (record { caller_id = a; receiver_id = b; call_type = type }))
      × (t ≡ record s { calls = c ∷ s.calls })
      × (call_at c.id t ≡ some c)
unfolding new_row
initiate_call-eq-ok id now a b type s {c} h =
    let new : NewCall = record { caller_id = a; receiver_id = b; call_type = type } in
    ground (arith, initiate_call_lem id now a b type s, create-eq-ok id now new s {c = c})

pub initiate_call-eq-err :
    (id now a b : ℕ) (type : CallType) (s : CallDb) {e : DomainError}
    → (initiate_call id now a b type s).0 ≡ err e
    → (initiate_call id now a b type s).1 ≡ s
initiate_call-eq-err id now a b type s {e} h =
    let new : NewCall = record { caller_id = a; receiver_id = b; call_type = type } in
    ground (arith, initiate_call_lem id now a b type s, create-eq-err id now new s {e = e})

pub initiate_call-Step :
    (id now a b : ℕ) (type : CallType) (s : CallDb) → Step s (initiate_call id now a b type s).1
initiate_call-Step id now a b type s = go (initiate_call id now a b type s).0 refl
  where
    go :
        (r : Result Call)
        → (initiate_call id now a b type s).0 ≡ r
        → Step s (initiate_call id now a b type s).1
    go (err x) made = (stay (initiate_call-eq-err id now a b type s made), tt)
    go (ok x) made =
        let (differ, absent, fa, fb, same, written, _) =
          initiate_call-eq-ok id now a b type s made in
        (
          begin id now (record { caller_id = a; receiver_id = b; call_type = type }) differ absent
              fa fb (rw written (rw same)),
          tt,
        )
