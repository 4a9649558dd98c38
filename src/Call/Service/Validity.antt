-- ===== src/Call/Service/Validity.antt =====
-- What holds of every row of `calls` after any change: the two parties differ, a call has an end
-- time exactly if it is no longer active, and an answered call has a start time.
use mesty_api.Common.{
  ℕ, ◌≡◌, ◌≢◌, Bool, true, not, is_some, All, All-update_where, arith, some, none, Option,
}
use mesty_api.Call.CallStatus.{CallStatus, is_active, ringing, answered}
use mesty_api.Call.Repository.{Call, CallDb, has_id, set_status, new_row}
use mesty_api.Call.Service.{is_terminal}
use mesty_api.Call.Service.Transitions.{Transition, stay, begin, ring, answer, finish}

pub record IsValid (c : Call) : Type 0 where
  pub parties : c.caller_id ≢ c.receiver_id
  pub closed : is_some c.ended_at ≡ not (is_active c.status)
  pub timed : c.status ≡ answered → is_some c.started_at ≡ true

set_status-IsValid :
    (status : CallStatus) (started ended_at : Option ℕ) (now : ℕ) (c : Call)
    → is_some ended_at ≡ not (is_active status)
    → (status ≡ answered → is_some started ≡ true)
    → IsValid c
    → IsValid (set_status status started ended_at now c)
unfolding set_status
set_status-IsValid status started ended_at now c closed timed h = record {
  parties = h.parties;
  closed = closed;
  timed = λ e. ground (arith, timed e);
}

terminal_not_active :
    (status : CallStatus)
    → is_terminal status ≡ true
    → (is_active status ≡ Bool.false) × (status ≢ answered)
unfolding is_active
terminal_not_active status h = ground arith

abbrev pub AllValid : CallDb → Type 0
AllValid s = All IsValid s.calls

pub Transition-AllValid : {s t : CallDb} → Transition s t → AllValid s → AllValid t
unfolding new_row is_active
Transition-AllValid (stay e) h = rw e h
Transition-AllValid (begin id now new differ _ _ _ e) h =
    rw e (record { parties = differ; closed = ground arith; timed = λ q. cc }, h)
Transition-AllValid {s} (ring i now c _ e) h = rw e (
    All-update_where IsValid (has_id i) (set_status ringing none none now) s.calls
      (λ x _ v. set_status-IsValid ringing none none now x (ground arith) (λ q. cc) v) h)
Transition-AllValid {s} (answer i now c _ _ e) h = rw e (
    All-update_where IsValid (has_id i) (set_status answered (some now) none now) s.calls
      (λ x _ v.
        set_status-IsValid answered (some now) none now x (ground arith) (λ q. ground arith) v)
      h)
Transition-AllValid {s} (finish i now c status _ _ end e) h =
    let (closed, other) = terminal_not_active status end in
    rw e (
      All-update_where IsValid (has_id i) (set_status status c.started_at (some now) now) s.calls
        (λ x _ v.
          set_status-IsValid status c.started_at (some now) now x (ground arith)
            (λ q. absurd (other q)) v)
        h)
