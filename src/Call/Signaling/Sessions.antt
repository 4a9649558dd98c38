-- ===== src/Call/Signaling/Sessions.antt =====
-- Any sequence of client messages, each handled to its end before the next.
use mesty_api.Common.{ℕ, ◌≡◌, true, some, refl, List, [], ◌∷◌, unwrap_or, String}
use mesty_api.DomainError.{Result, ok, err}
use mesty_api.Call.CallType.{CallType}
use mesty_api.Call.CallStatus.{is_active, ended, missed}
use mesty_api.Call.Repository.{Call, CallDb, NewCall, new_row}
use mesty_api.Call.Service.{initiate_call, mark_ringing, accept_call, end_call}
use mesty_api.Call.Service.Transitions.{
  call_at, Step, ring, mark_ringing_found, accept_call-Step, end_call-Step, initiate_call-Step,
  initiate_call-eq-ok,
}
use mesty_api.Call.Service.Validity.{AllValid, Transition-AllValid}
use mesty_api.Call.Service.Exclusive.{Exclusive, Transition-Exclusive}
use mesty_api.Call.Signaling.{
  CallMessage, call_initiate, call_accept, call_reject, call_ice_candidate, call_hangup,
  handle_client_message, parse_type, reject_status, on_initiated, on_accepted, on_rejected,
  on_hung_up, hang_up, retry_missed,
}

-- Both invariants of the table.
pub record IsSound (s : CallDb) : Type 0 where
  pub valid : AllValid s
  pub exclusive : Exclusive s

Step-IsSound : {s t : CallDb} → Step s t → IsSound s → IsSound t
Step-IsSound (step, o) h = record {
  valid = Transition-AllValid step h.valid;
  exclusive = Transition-Exclusive step o h.exclusive;
}

mark_ringing-IsSound :
    (now i : ℕ) (s : CallDb) (c : Call)
    → call_at i s ≡ some c
    → is_active c.status ≡ true
    → IsSound s
    → IsSound (mark_ringing now i s).1
mark_ringing-IsSound now i s c e active h =
    Step-IsSound (ring i now c e (rw (mark_ringing_found now i s c e)), active) h

initiated_active :
    (id now : ℕ) (new : NewCall) (c : Call) → c ≡ new_row id now new → is_active c.status ≡ true
unfolding new_row is_active
initiated_active id now new c e = rw e

initiated-IsSound :
    (id now a b : ℕ) (type : CallType) (offer : String) (s : CallDb)
    → IsSound s
    → IsSound (on_initiated now a b type offer (initiate_call id now a b type s)).0
unfolding on_initiated
initiated-IsSound id now a b type offer s h =
    go (initiate_call id now a b type s) refl
      (Step-IsSound (initiate_call-Step id now a b type s) h)
  where
    go :
        (r : Result Call × CallDb)
        → initiate_call id now a b type s ≡ r
        → IsSound (initiate_call id now a b type s).1
        → IsSound (on_initiated now a b type offer r).0
    go (err e, t) made k = rw made at k
    go (ok c, t) made k =
        let (_, _, _, _, same, _, found) =
          initiate_call-eq-ok id now a b type s {c = c} (rw made) in
        mark_ringing-IsSound now c.id t c (rw made at found) (initiated_active id now _ c same)
          (rw made at k)

on_accepted-state :
    (i u : ℕ) (answer : String) (r : Result Call × CallDb) → (on_accepted i u answer r).0 ≡ r.1
unfolding on_accepted
on_accepted-state i u answer (ok _, _) = refl
on_accepted-state i u answer (err _, _) = refl

on_rejected-state :
    (i u : ℕ) (reason : String) (r : Result Call × CallDb) → (on_rejected i u reason r).0 ≡ r.1
unfolding on_rejected
on_rejected-state i u reason (ok _, _) = refl
on_rejected-state i u reason (err _, _) = refl

on_hung_up-state : (i u : ℕ) (r : Result Call × CallDb) → (on_hung_up i u r).0 ≡ r.1
unfolding on_hung_up
on_hung_up-state i u (ok _, _) = refl
on_hung_up-state i u (err _, _) = refl

hang_up-IsSound : (now i u : ℕ) (s : CallDb) → IsSound s → IsSound (hang_up now i u s).1
unfolding hang_up
hang_up-IsSound now i u s h =
    go (end_call now i u ended s) (Step-IsSound (end_call-Step now i u ended s) h)
  where
    go : (r : Result Call × CallDb) → IsSound r.1 → IsSound (retry_missed now i u r).1
    go (ok _, t) k = k
    go (err _, t) k = Step-IsSound (end_call-Step now i u missed t) k

handle-IsSound :
    (id now u : ℕ) (m : CallMessage) (s : CallDb)
    → IsSound s
    → IsSound (handle_client_message id now u m s).0
unfolding handle_client_message
handle-IsSound id now u (call_initiate b type offer) s h =
    initiated-IsSound id now u b (parse_type type) offer s h
handle-IsSound id now u (call_accept i answer) s h =
    rw (on_accepted-state i u answer (accept_call now i u s))
      (Step-IsSound (accept_call-Step now i u s) h)
handle-IsSound id now u (call_reject i reason) s h =
    let text = unwrap_or reason "rejected" in
    rw (on_rejected-state i u text (end_call now i u (reject_status text) s))
      (Step-IsSound (end_call-Step now i u (reject_status text) s) h)
handle-IsSound id now u (call_ice_candidate i b candidate) s h = h
handle-IsSound id now u (call_hangup i) s h =
    rw (on_hung_up-state i u (hang_up now i u s)) (hang_up-IsSound now i u s h)

-- One message: what was sent to whom and when the handler ran.
pub record Request : Type 0 where
  pub fresh_id : ℕ
  pub now : ℕ
  pub user_id : ℕ
  pub message : CallMessage

pub serve : Request → CallDb → CallDb
serve r s = (handle_client_message r.fresh_id r.now r.user_id r.message s).0

pub serve_all : List Request → CallDb → CallDb
serve_all [] s = s
serve_all (r ∷ rs) s = serve_all rs (serve r s)

-- From a sound table, such as an empty one, any messages of any users, each handled to its end
-- before the next, lead to a sound table: every user is in at most one active call, ids are unique,
-- and every row is valid.
pub serve_all-IsSound : (rs : List Request) (s : CallDb) → IsSound s → IsSound (serve_all rs s)
unfolding serve_all serve
serve_all-IsSound [] s h = h
serve_all-IsSound (r ∷ rs) s h =
    serve_all-IsSound rs (serve r s) (handle-IsSound r.fresh_id r.now r.user_id r.message s h)
