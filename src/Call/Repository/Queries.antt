-- ===== src/Call/Repository/Queries.antt =====
-- What each query of the table returns and writes.
use mesty_api.Common.{
  ℕ, ◌≡◌, ◌≢◌, refl, Option, none, some, List, [], ◌∷◌, ◌&&◌, ◌==◌, if◌then◌else◌, find?,
  find?-eq-any, update_where, arith,
}
use mathlib.Core.Option
use mesty_api.DomainError.{DomainError, not_found, ok, err}
use mesty_api.Call.CallType
use mesty_api.Call.CallStatus
use mesty_api.Call.CallStatus.{
  CallStatus, initiated, ringing, answered, ended, missed, rejected, busy,
}
use mesty_api.Call.Repository.{
  Call, CallDb, NewCall, select_fields, try_from, transpose, has_id, refers_to, find_by_id,
  set_status, update_status, in_active_call, create, new_row,
}

-- Casting the enums to text and reading them back loses nothing.
pub try_from-select_fields : (c : Call) (s : CallDb) → try_from (select_fields c) s ≡ (ok c, s)
unfolding try_from select_fields
try_from-select_fields c s =
    rw (CallType.from_db_str-as_db_str c.call_type, CallStatus.from_db_str-as_db_str c.status)

transpose-select_fields :
    (o : Option Call) (s : CallDb) → transpose (Option.map select_fields o) s ≡ (ok o, s)
unfolding transpose
transpose-select_fields none s = refl
transpose-select_fields (some c) s = ground (arith, try_from-select_fields c s)

pub find_by_id_lem : (i : ℕ) (s : CallDb) → find_by_id i s ≡ (ok (find? (has_id i) s.calls), s)
unfolding find_by_id
find_by_id_lem i s = transpose-select_fields (find? (has_id i) s.calls) s

-- `UPDATE … WHERE id = j` changes the row found by `j` and no other.
pub find?-update_where :
    (i j : ℕ) (f : Call → Call) (t : List Call)
    → ((c : Call) → (f c).id ≡ c.id)
    → find? (has_id i) (update_where (has_id j) f t)
      ≡ (if j == i then Option.map f (find? (has_id i) t) else find? (has_id i) t)
find?-update_where i j f [] keeps = ground arith
find?-update_where i j f (c ∷ t) keeps = ground (arith, keeps c, find?-update_where i j f t keeps)

abbrev pub with_status : CallStatus → Option ℕ → Option ℕ → ℕ → ℕ → CallDb → CallDb
with_status status started ended_at now i s = record s {
  calls = update_where (has_id i) (set_status status started ended_at now) s.calls;
}

-- An update writes the row and returns it, or finds no row and changes nothing that is found.
pub update_status_found :
    (now i : ℕ) (status : CallStatus) (started ended_at : Option ℕ) (s : CallDb) (c : Call)
    → find? (has_id i) s.calls ≡ some c
    → update_status now i status started ended_at s
      ≡ (ok (set_status status started ended_at now c), with_status status started ended_at now i s)
unfolding update_status set_status
update_status_found now i status started ended_at s c e =
    let f = set_status status started ended_at now in
    let moved : find? (has_id i) (update_where (has_id i) f s.calls) ≡ some (f c) =
      rw (find?-update_where i i f s.calls (λ _. refl)) (ground (arith, e)) in
    ground (
      arith,
      CallStatus.from_db_str-as_db_str status,
      moved,
      try_from-select_fields (f c) (with_status status started ended_at now i s),
    )

update_where-none :
    (i : ℕ) (f : Call → Call) (t : List Call)
    → find? (has_id i) t ≡ none
    → update_where (has_id i) f t ≡ t
update_where-none i f [] e = refl
update_where-none i f (c ∷ t) e = ground (arith, update_where-none i f t)

pub update_status_missing :
    (now i : ℕ) (status : CallStatus) (started ended_at : Option ℕ) (s : CallDb)
    → find? (has_id i) s.calls ≡ none
    → update_status now i status started ended_at s ≡ (err (not_found "Resource not found"), s)
unfolding update_status
update_status_missing now i status started ended_at s e = ground (
  arith,
  CallStatus.from_db_str-as_db_str status,
  update_where-none i (set_status status started ended_at now) s.calls e,
)

-- A call is created between two different known users, under an id that is not in use; otherwise a
-- constraint of the table refuses it.
pub create-eq-ok :
    (id now : ℕ) (new : NewCall) (s : CallDb) {c : Call}
    → (create id now new s).0 ≡ ok c
    → (new.caller_id ≢ new.receiver_id)
      × (find? (has_id id) s.calls ≡ none)
      × (c ≡ new_row id now new)
      × ((create id now new s).1 ≡ record s { calls = new_row id now new ∷ s.calls })
unfolding create
create-eq-ok id now new s h = ground (
  arith,
  find?-eq-any (has_id id) s.calls,
  try_from-select_fields (new_row id now new) (record s { calls = new_row id now new ∷ s.calls }),
)

pub create-eq-err :
    (id now : ℕ) (new : NewCall) (s : CallDb) {e : DomainError}
    → (create id now new s).0 ≡ err e
    → (create id now new s).1 ≡ s
unfolding create
create-eq-err id now new s h = ground (
  arith,
  try_from-select_fields (new_row id now new) (record s { calls = new_row id now new ∷ s.calls }),
)

pub in_active_call_lem :
    (u : ℕ) (c : Call) → in_active_call u c ≡ (refers_to u c && CallStatus.is_active c.status)
unfolding in_active_call CallStatus.as_db_str CallStatus.is_active
in_active_call_lem u c = go c.status
  where
    go :
        (st : CallStatus)
        → in_active_call u (record c { status = st }) ≡ (refers_to u c && CallStatus.is_active st)
    go initiated = refl
    go ringing = refl
    go answered = refl
    go _ = refl
