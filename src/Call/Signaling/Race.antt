-- ===== src/Call/Signaling/Race.antt =====
-- `call_initiate` writes twice: it creates the call, and after telling the receiver it sets the call
-- to ringing, whatever has become of it. Other handlers may run in between.
use mesty_api.Common.{ℕ, ◌≡◌, true, Option, none, some, refl, List, [], ◌∷◌, arith}
use mesty_api.DomainError.{ok}
use mesty_api.Call.CallStatus.{CallStatus, is_active, ringing}
use mesty_api.Call.Repository.{Call, CallDb, refers_to, set_status}
use mesty_api.Call.Repository.Queries.{with_status, find?-update_where}
use mesty_api.Call.CallType.{CallType}
use mesty_api.Call.Service.Validity.{AllValid, Transition-AllValid}
use mesty_api.Call.Service.{initiate_call, accept_call, end_call, mark_ringing, is_terminal}
use mesty_api.Call.Service.Transitions.{
  call_at, end_call_lem, mark_ringing_found, initiate_call-Step, accept_call-Step, end_call-Step,
  mark_ringing-Transition,
}

pub call_at-with_status :
    (status : CallStatus) (started ended_at : Option ℕ) (now i : ℕ) (s : CallDb) (c : Call)
    → call_at i s ≡ some c
    → call_at i (with_status status started ended_at now i s)
      ≡ some (set_status status started ended_at now c)
unfolding set_status
call_at-with_status status started ended_at now i s c e =
    let f = set_status status started ended_at now in
    rw (find?-update_where i i f s.calls (λ _. refl)) (ground (arith, e))

-- If a party ends an active call before the task that initiated it reaches `mark_ringing`, the call
-- is ringing again in the end, with no end time, though the end was confirmed.
pub end_call-mark_ringing :
    (now later i u : ℕ) (status : CallStatus) (s : CallDb) (c : Call)
    → call_at i s ≡ some c
    → refers_to u c ≡ true
    → is_active c.status ≡ true
    → is_terminal status ≡ true
    → let (r, t) = end_call now i u status s in
      (c' : Call) × (r ≡ ok (set_status status c.started_at (some now) now c))
      × (call_at i (mark_ringing later i t).1 ≡ some c')
      × (c'.status ≡ ringing)
      × (c'.ended_at ≡ none)
unfolding set_status
end_call-mark_ringing now later i u status s c e party active terminal =
    let finished = set_status status c.started_at (some now) now c in
    let t = with_status status c.started_at (some now) now i s in
    let done : end_call now i u status s ≡ (ok finished, t) =
      ground (arith, end_call_lem now i u status s c e) in
    let found : call_at i t ≡ some finished =
      call_at-with_status status c.started_at (some now) now i s c e in
    let again : call_at i (with_status ringing none none later i t)
        ≡ some (set_status ringing none none later finished) =
      call_at-with_status ringing none none later i t finished found in
    rw done (
      set_status ringing none none later finished,
      refl,
      rw (mark_ringing_found later i t finished found) again,
      refl,
      refl,
    )

-- A call of a method of `CallService` by some task, with its arguments.
pub data Method : Type 0 where
  initiate : (id now caller_id receiver_id : ℕ) → CallType → Method
  mark : (now call_id : ℕ) → Method
  accept : (now call_id user_id : ℕ) → Method
  end : (now call_id user_id : ℕ) → CallStatus → Method

pub perform : Method → CallDb → CallDb
perform (initiate id now a b type) s = (initiate_call id now a b type s).1
perform (mark now i) s = (mark_ringing now i s).1
perform (accept now i u) s = (accept_call now i u s).1
perform (end now i u status) s = (end_call now i u status s).1

pub perform_all : List Method → CallDb → CallDb
perform_all [] s = s
perform_all (m ∷ ms) s = perform_all ms (perform m s)

perform-AllValid : (m : Method) (s : CallDb) → AllValid s → AllValid (perform m s)
unfolding perform
perform-AllValid (initiate id now a b type) s h =
    Transition-AllValid (initiate_call-Step id now a b type s).0 h
perform-AllValid (mark now i) s h = Transition-AllValid (mark_ringing-Transition now i s) h
perform-AllValid (accept now i u) s h = Transition-AllValid (accept_call-Step now i u s).0 h
perform-AllValid (end now i u status) s h = Transition-AllValid (end_call-Step now i u status s).0 h

-- In whatever order tasks call the methods, every row stays valid: its parties differ, it has an end
-- time exactly if it is not active, and it has a start time if it is answered.
pub perform_all-AllValid :
    (ms : List Method) (s : CallDb) → AllValid s → AllValid (perform_all ms s)
unfolding perform_all
perform_all-AllValid [] s h = h
perform_all-AllValid (m ∷ ms) s h = perform_all-AllValid ms (perform m s) (perform-AllValid m s h)
