-- ===== src/Call/CallType.antt =====
-- `CallType` of crates/domain/src/call/entities.rs.
use mesty_api.Common.{String, Option, none, some, str_eq, if◌then◌else◌, ◌≡◌, refl}

pub data CallType : Type 0 where
  audio video : CallType

unfoldable pub as_db_str : CallType → String
as_db_str audio = "audio"
as_db_str video = "video"

unfoldable pub from_db_str : String → Option CallType
from_db_str s =
    if str_eq s "audio" then some audio else if str_eq s "video" then some video else none

pub from_db_str-as_db_str : (t : CallType) → from_db_str (as_db_str t) ≡ some t
unfolding from_db_str as_db_str
from_db_str-as_db_str audio = refl
from_db_str-as_db_str video = refl
