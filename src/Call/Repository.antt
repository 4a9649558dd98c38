-- ===== src/Call/Repository.antt =====
-- `PostgresCallRepository` (crates/infrastructure/src/repositories/call/postgres.rs) over the table
-- `calls` of migrations/019_webrtc_calls.sql. The database answers every query: what can fail is a
-- constraint of the table. `NOW()`, `Utc::now()` and the new row's id are arguments.
pub mod Queries
use mesty_api.Common.{
  ℕ, ◌≡◌, Bool, String, Option, none, some, List, [], ◌∷◌, ◌++◌, ◌&&◌, ◌||◌, not, ◌==◌, str_eq,
  if◌then◌else◌, any, find?, update_where, coalesce, is_some, unwrap_or,
}
use mathlib.Core.Option
use mesty_api.DomainError.{
  DomainError, validation, not_found, already_exists, internal, Result, ok, err, Action, pure,
  throw, gets, ok_or, modify, throw_if, ◌>>=◌, ◌>>◌,
}
use mesty_api.Call.CallType
use mesty_api.Call.CallType.{CallType}
use mesty_api.Call.CallStatus
use mesty_api.Call.CallStatus.{CallStatus, initiated}

pub record Call : Type 0 where
  pub id : ℕ
  pub caller_id : ℕ
  pub receiver_id : ℕ
  pub call_type : CallType
  pub status : CallStatus
  pub started_at : Option ℕ
  pub ended_at : Option ℕ
  pub created_at : ℕ
  pub updated_at : ℕ

pub record NewCall : Type 0 where
  pub caller_id : ℕ
  pub receiver_id : ℕ
  pub call_type : CallType

-- What a SELECT returns: the enum columns are cast to text.
pub record CallRow : Type 0 where
  pub id : ℕ
  pub caller_id : ℕ
  pub receiver_id : ℕ
  pub call_type : Option String
  pub status : Option String
  pub started_at : Option ℕ
  pub ended_at : Option ℕ
  pub created_at : ℕ
  pub updated_at : ℕ

-- The rows of `users` matter only by their ids, which `calls` refers to.
pub record CallDb : Type 0 where
  pub users : List ℕ
  pub calls : List Call

-- `type::text AS call_type, status::text AS status` of SELECT_FIELDS
unfoldable pub select_fields : Call → CallRow
select_fields c = record {
  id = c.id;
  caller_id = c.caller_id;
  receiver_id = c.receiver_id;
  call_type = some (CallType.as_db_str c.call_type);
  status = some (CallStatus.as_db_str c.status);
  started_at = c.started_at;
  ended_at = c.ended_at;
  created_at = c.created_at;
  updated_at = c.updated_at;
}

-- `TryFrom<CallRow> for Call`
unfoldable pub try_from : CallRow → CallDb → Result Call × CallDb
try_from row = do
  call_type ←
      ok_or (CallType.from_db_str (unwrap_or row.call_type "")) (internal "Unknown call_type")
  status ← ok_or (CallStatus.from_db_str (unwrap_or row.status "")) (internal "Unknown call_status")
  pure (record {
    id = row.id;
    caller_id = row.caller_id;
    receiver_id = row.receiver_id;
    call_type = call_type;
    status = status;
    started_at = row.started_at;
    ended_at = row.ended_at;
    created_at = row.created_at;
    updated_at = row.updated_at;
  })

abbrev pub has_id : ℕ → Call → Bool
has_id i c = c.id == i

abbrev pub refers_to : ℕ → Call → Bool
refers_to u c = c.caller_id == u || c.receiver_id == u

-- the row that `create` inserts: the other columns have the defaults of the table
unfoldable pub new_row : ℕ → ℕ → NewCall → Call
new_row id now new = record {
  id = id;
  caller_id = new.caller_id;
  receiver_id = new.receiver_id;
  call_type = new.call_type;
  status = initiated;
  started_at = none;
  ended_at = none;
  created_at = now;
  updated_at = now;
}

unfoldable pub create : ℕ → ℕ → NewCall → CallDb → Result Call × CallDb
create id now new = do
  throw_if (new.caller_id == new.receiver_id) (validation "Validation constraint failed")
  throw_if (← gets (λ s. any (has_id id) s.calls)) (already_exists "Resource already exists")
  throw_if
      (← gets (λ s.
        not (any (λ u. u == new.caller_id) s.users && any (λ u. u == new.receiver_id) s.users)))
      (validation "Referenced resource not found")
  modify (λ s. record s { calls = new_row id now new ∷ s.calls })
  try_from (select_fields (new_row id now new))

-- `row.map(Call::try_from).transpose()`
unfoldable pub transpose : Option CallRow → CallDb → Result (Option Call) × CallDb
transpose none = pure none
transpose (some row) = do c ← try_from row; pure (some c)

unfoldable pub find_by_id : ℕ → CallDb → Result (Option Call) × CallDb
find_by_id call_id = do
  row ← gets (λ s. find? (has_id call_id) s.calls)
  transpose (Option.map select_fields row)

-- the SET clause of `update_status`, and the trigger `calls_updated_at`
unfoldable pub set_status : CallStatus → Option ℕ → Option ℕ → ℕ → Call → Call
set_status status started_at ended_at now c = record c {
  status = status;
  started_at = coalesce started_at c.started_at;
  ended_at = ended_at;
  updated_at = now;
}

unfoldable pub update_status :
    ℕ → ℕ → CallStatus → Option ℕ → Option ℕ → CallDb → Result Call × CallDb
update_status now call_id status started_at ended_at = do
  parsed ←
      ok_or (CallStatus.from_db_str (CallStatus.as_db_str status))
        (internal "Database operation failed")
  modify (λ s. record s {
    calls = update_where (has_id call_id) (set_status parsed started_at ended_at now) s.calls;
  })
  row ← ok_or (← gets (λ s. find? (has_id call_id) s.calls)) (not_found "Resource not found")
  try_from (select_fields row)

-- `status::text = ANY(ARRAY['initiated', 'ringing', 'answered'])`
unfoldable pub in_active_call : ℕ → Call → Bool
in_active_call user_id c =
    let status = CallStatus.as_db_str c.status in
    refers_to user_id c
    && (str_eq status "initiated" || str_eq status "ringing" || str_eq status "answered")

unfoldable pub is_user_in_active_call : ℕ → CallDb → Result Bool × CallDb
is_user_in_active_call user_id = gets (λ s. any (in_active_call user_id) s.calls)
