-- ===== src/Chat/ChatType.antt =====
-- `ChatType` of crates/domain/src/chat/entity.rs.
use mesty_api.Common.{String, Option, none, some, str_eq, if◌then◌else◌, ◌≡◌, refl}

pub data ChatType : Type 0 where
  private_chat group channel self_chat : ChatType

unfoldable pub as_db_str : ChatType → String
as_db_str private_chat = "private"
as_db_str group = "group"
as_db_str channel = "channel"
as_db_str self_chat = "self"

unfoldable pub from_db_str : String → Option ChatType
from_db_str s =
    if str_eq s "private"
    then some private_chat
    else if str_eq s "group"
    then some group
    else if str_eq s "channel"
    then some channel
    else if str_eq s "self"
    then some self_chat
    else none

pub from_db_str-as_db_str : (t : ChatType) → from_db_str (as_db_str t) ≡ some t
unfolding from_db_str as_db_str
from_db_str-as_db_str private_chat = refl
from_db_str-as_db_str group = refl
from_db_str-as_db_str channel = refl
from_db_str-as_db_str self_chat = refl
