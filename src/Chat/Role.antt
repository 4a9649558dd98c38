-- ===== src/Chat/Role.antt =====
-- `ParticipantRole` of crates/domain/src/chat/entity.rs.
use mesty_api.Common.{
  ℕ, Bool, String, Option, none, some, str_eq, if◌then◌else◌, ◌≡◌, refl, ltb, leb, ◌==◌, arith, ◌≤◌,
}

pub data Role : Type 0 where
  member moderator admin owner : Role

-- the discriminants, which the derived order follows
abbrev pub rank : Role → ℕ
rank member = 1
rank moderator = 2
rank admin = 3
rank owner = 4

-- `a < b`, `a <= b` and `a == b` on roles
abbrev pub lt : Role → Role → Bool
lt a b = ltb (rank a) (rank b)

abbrev pub le : Role → Role → Bool
le a b = leb (rank a) (rank b)

abbrev pub same : Role → Role → Bool
same a b = rank a == rank b

unfoldable pub as_db_str : Role → String
as_db_str member = "member"
as_db_str moderator = "moderator"
as_db_str admin = "admin"
as_db_str owner = "owner"

unfoldable pub from_db_str : String → Option Role
from_db_str s =
    if str_eq s "member"
    then some member
    else if str_eq s "moderator"
    then some moderator
    else if str_eq s "admin"
    then some admin
    else if str_eq s "owner"
    then some owner
    else none

pub from_db_str-as_db_str : (r : Role) → from_db_str (as_db_str r) ≡ some r
unfolding from_db_str as_db_str
from_db_str-as_db_str member = refl
from_db_str-as_db_str moderator = refl
from_db_str-as_db_str admin = refl
from_db_str-as_db_str owner = refl

pub rank_le : (r : Role) → rank r ≤ 4
rank_le member = omega arith
rank_le moderator = omega arith
rank_le admin = omega arith
rank_le owner = omega arith
