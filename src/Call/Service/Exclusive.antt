-- ===== src/Call/Service/Exclusive.antt =====
-- Which changes of the table keep every user in at most one active call.
use mesty_api.Common.{
  ℕ, ◌≡◌, ◌≤◌, true, false, some, none, Option, refl, ◌∷◌, arith, count, any, count-update_where_le,
  count-update_where, count-eq-zero_of_find?, any-eq-false_iff_count,
}
use mesty_api.Call.CallStatus.{CallStatus, is_active, ringing, answered}
use mesty_api.Call.Repository.{Call, CallDb, NewCall, has_id, set_status, new_row, in_active_call}
use mesty_api.Call.Repository.Queries.{in_active_call_lem, with_status}
use mesty_api.Call.Service.Transitions.{
  call_at, Transition, stay, begin, ring, answer, finish, Orderly,
}

-- Ids are unique, and each user is in at most one active call.
pub record Exclusive (s : CallDb) : Type 0 where
  pub unique : (i : ℕ) → count (has_id i) s.calls ≤ 1
  pub single : (u : ℕ) → count (in_active_call u) s.calls ≤ 1

with_status-Exclusive :
    (status : CallStatus) (started ended_at : Option ℕ) (now i : ℕ) (s : CallDb) (c : Call)
    → call_at i s ≡ some c
    → (is_active status ≡ true → is_active c.status ≡ true)
    → Exclusive s
    → Exclusive (with_status status started ended_at now i s)
unfolding set_status
with_status-Exclusive status started ended_at now i s c e active h = record {
  unique = λ j. ground (
    arith,
    h.unique j,
    count-update_where (has_id i) (set_status status started ended_at now) (has_id j) s.calls
        (λ x. refl),
  );
  single = λ u. ground (
    arith,
    h.single u,
    count-update_where_le (has_id i) (set_status status started ended_at now) (in_active_call u)
        s.calls c (h.unique i) e
        (ground (
          arith,
          in_active_call_lem u c,
          in_active_call_lem u (set_status status started ended_at now c),
        )),
  );
}

begin-Exclusive :
    (id now : ℕ) (new : NewCall) (s : CallDb)
    → call_at id s ≡ none
    → any (in_active_call new.caller_id) s.calls ≡ false
    → any (in_active_call new.receiver_id) s.calls ≡ false
    → Exclusive s
    → Exclusive (record s { calls = new_row id now new ∷ s.calls })
unfolding new_row
begin-Exclusive id now new s absent free_caller free_receiver h = record {
  unique = λ j. ground (arith, h.unique j, count-eq-zero_of_find? (has_id id) s.calls absent);
  single = λ u. ground (
    arith,
    h.single u,
    in_active_call_lem u (new_row id now new),
    any-eq-false_iff_count (in_active_call new.caller_id) s.calls free_caller,
    any-eq-false_iff_count (in_active_call new.receiver_id) s.calls free_receiver,
  );
}

pub Transition-Exclusive :
    {s t : CallDb} (step : Transition s t) → Orderly step → Exclusive s → Exclusive t
unfolding is_active
Transition-Exclusive (stay e) o h = rw e h
Transition-Exclusive {s} (begin id now new _ absent fa fb e) o h =
    rw e (begin-Exclusive id now new s absent fa fb h)
Transition-Exclusive {s} (ring i now c found e) o h =
    rw e (with_status-Exclusive ringing none none now i s c found (λ _. o) h)
Transition-Exclusive {s} (answer i now c found pending e) o h =
    rw e (with_status-Exclusive answered (some now) none now i s c found (λ _. ground arith) h)
Transition-Exclusive {s} (finish i now c status found active _ e) o h =
    rw e (with_status-Exclusive status c.started_at (some now) now i s c found (λ _. active) h)
