-- ===== src/Call/Signaling/Endings.antt =====
-- How calls end: who may end them, and in which status.
use mesty_api.Common.{
  ℕ, ◌≡◌, ◌≢◌, ◌⊎◌, inl, inr, true, false, ◌&&◌, ◌==◌, none, some, [], ◌∷◌, arith, Option-cases,
  Bool-cases,
}
use mesty_api.DomainError.{Result, ok}
use mesty_api.Call.CallStatus
use mesty_api.Call.CallStatus.{
  CallStatus, is_active, initiated, ringing, answered, ended, missed, rejected, busy,
}
use mesty_api.Call.Repository.{Call, CallDb, refers_to, set_status}
use mesty_api.Call.Repository.Queries.{with_status}
use mesty_api.Call.Service.{accept_call, end_call, is_pending, is_terminal}
use mesty_api.Call.Service.Transitions.{
  call_at, accept_call_lem, accept_call_missing, end_call_lem, end_call_missing,
}
use mesty_api.Call.Signaling.{
  call_hangup, handle_client_message, hang_up, on_hung_up, publish, ended_event, peer,
}

-- Who may accept: the receiver of a call that is still pending, which the acceptance answers.
abbrev pub AcceptOutcome : ℕ → ℕ → ℕ → CallDb → Result Call × CallDb → Type 0
AcceptOutcome now i u s r =
    ((c : Call) × (call_at i s ≡ some c)
      × (c.receiver_id ≡ u)
      × (is_pending c.status ≡ true)
      × (r ≡ (
        ok (set_status answered (some now) none now c),
        with_status answered (some now) none now i s,
      )))
    ⊎ (((c : Call) → call_at i s ≡ some c → (c.receiver_id ≢ u) ⊎ (is_pending c.status ≡ false))
        × ((x : Call) → r.0 ≢ ok x)
        × (r.1 ≡ s))

-- `accept_call` succeeds exactly for the receiver of a call that is still pending; then the call is
-- answered and has the start time `now`. In every other case it fails and the table is unchanged.
pub accept_call_outcome :
    (now i u : ℕ) (s : CallDb) → AcceptOutcome now i u s (accept_call now i u s)
accept_call_outcome now i u s = elim (Option-cases (call_at i s)) [
  | inl e ↦ inr (
    (λ c h. cc),
    (λ x h. cc (accept_call_missing now i u s e)),
    ground (arith, accept_call_missing now i u s e),
  )
  | inr (c, e) ↦ elim (Bool-cases (c.receiver_id == u && is_pending c.status)) [
    | inl allowed ↦
        inl (c, e, ground arith, ground arith, ground (arith, accept_call_lem now i u s c e))
    | inr refused ↦ inr (
      (λ c' h. ground arith),
      (λ x h. ground (arith, accept_call_lem now i u s c e)),
      ground (arith, accept_call_lem now i u s c e),
    )
  ]
]

-- Who may end a call in which status: a party of an active call, in a terminal status.
abbrev pub EndOutcome : ℕ → ℕ → ℕ → CallStatus → CallDb → Result Call × CallDb → Type 0
EndOutcome now i u status s r =
    ((c : Call) × (call_at i s ≡ some c)
      × ((c.caller_id ≡ u) ⊎ (c.receiver_id ≡ u))
      × (is_active c.status ≡ true)
      × (is_terminal status ≡ true)
      × (r ≡ (
        ok (set_status status c.started_at (some now) now c),
        with_status status c.started_at (some now) now i s,
      )))
    ⊎ (((c : Call)
          → call_at i s ≡ some c
          → (refers_to u c ≡ false) ⊎ (is_active c.status ≡ false) ⊎ (is_terminal status ≡ false))
        × ((x : Call) → r.0 ≢ ok x)
        × (r.1 ≡ s))

-- `end_call` succeeds exactly for a party of an active call and a terminal status; then the call has
-- that status, keeps its start time and has the end time `now`. In every other case it fails and the
-- table is unchanged.
pub end_call_outcome :
    (now i u : ℕ) (status : CallStatus) (s : CallDb)
    → EndOutcome now i u status s (end_call now i u status s)
end_call_outcome now i u status s = elim (Option-cases (call_at i s)) [
  | inl e ↦ inr (
    (λ c h. cc),
    (λ x h. cc (end_call_missing now i u status s e)),
    ground (arith, end_call_missing now i u status s e),
  )
  | inr (c, e) ↦ elim (Bool-cases (refers_to u c && is_active c.status && is_terminal status)) [
    | inl allowed ↦ inl (
      c,
      e,
      ground arith,
      ground arith,
      ground arith,
      ground (arith, end_call_lem now i u status s c e),
    )
    | inr refused ↦ inr (
      (λ c' h. ground arith),
      (λ x h. ground (arith, end_call_lem now i u status s c e)),
      ground (arith, end_call_lem now i u status s c e),
    )
  ]
]

-- A hang-up by a party of an active call always ends it as `ended`, before it is answered too, and
-- tells the other party so.
pub hangup_ends :
    (id now i u : ℕ) (s : CallDb) (c : Call)
    → call_at i s ≡ some c
    → refers_to u c ≡ true
    → is_active c.status ≡ true
    → handle_client_message id now u (call_hangup i) s ≡ (
      with_status ended c.started_at (some now) now i s,
      publish (peer u c) (ended_event i u "ended") ∷ [],
    )
unfolding handle_client_message hang_up on_hung_up set_status CallStatus.as_db_str
hangup_ends id now i u s c e party active = ground (arith, end_call_lem now i u ended s c e)
