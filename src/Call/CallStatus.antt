-- ===== src/Call/CallStatus.antt =====
-- `CallStatus` of crates/domain/src/call/entities.rs.
use mesty_api.Common.{
  Bool, true, false, String, Option, none, some, str_eq, if◌then◌else◌, ◌≡◌, refl, arith, eq_iff,
}

pub data CallStatus : Type 0 where
  initiated ringing answered ended missed rejected busy : CallStatus

unfoldable pub as_db_str : CallStatus → String
as_db_str initiated = "initiated"
as_db_str ringing = "ringing"
as_db_str answered = "answered"
as_db_str ended = "ended"
as_db_str missed = "missed"
as_db_str rejected = "rejected"
as_db_str busy = "busy"

unfoldable pub from_db_str : String → Option CallStatus
from_db_str s =
    if str_eq s "initiated"
    then some initiated
    else if str_eq s "ringing"
    then some ringing
    else if str_eq s "answered"
    then some answered
    else if str_eq s "ended"
    then some ended
    else if str_eq s "missed"
    then some missed
    else if str_eq s "rejected"
    then some rejected
    else if str_eq s "busy"
    then some busy
    else none

unfoldable pub is_active : CallStatus → Bool
is_active initiated = true
is_active ringing = true
is_active answered = true
is_active _ = false

-- `{:?}`
unfoldable pub debug : CallStatus → String
debug initiated = "Initiated"
debug ringing = "Ringing"
debug answered = "Answered"
debug ended = "Ended"
debug missed = "Missed"
debug rejected = "Rejected"
debug busy = "Busy"

pub from_db_str-as_db_str : (s : CallStatus) → from_db_str (as_db_str s) ≡ some s
unfolding from_db_str as_db_str
from_db_str-as_db_str initiated = refl
from_db_str-as_db_str ringing = refl
from_db_str-as_db_str answered = refl
from_db_str-as_db_str ended = refl
from_db_str-as_db_str missed = refl
from_db_str-as_db_str rejected = refl
from_db_str-as_db_str busy = refl

-- Whatever text decodes to a status is the text that the status encodes to.
pub as_db_str-from_db_str : (t : String) (s : CallStatus) → from_db_str t ≡ some s → as_db_str s ≡ t
unfolding from_db_str as_db_str
as_db_str-from_db_str t s h = ground (
  arith,
  eq_iff t "initiated",
  eq_iff t "ringing",
  eq_iff t "answered",
  eq_iff t "ended",
  eq_iff t "missed",
  eq_iff t "rejected",
  eq_iff t "busy",
)
