-- ===== src/Chat/Chats/Creation.antt =====
-- The creation of chats: create_private_chat and create_group_chat of
-- crates/infrastructure/src/repositories/chat.rs.
use mesty_api.Common.{
  ℕ, ◌≡◌, ◌≢◌, refl, inl, inr, Bool, true, false, String, Option, none, some, List, [], ◌∷◌, ◌&&◌,
  ◌==◌, is_none, not, ◌||◌, select_where, any, all, if◌then◌else◌, str_eq, arith, Bool-cases,
}
use mathlib.Core.Option
use mesty_api.DomainError.{not_found, ok, err, Guarded, Guarded-ok, Guarded-err}
use mesty_api.Chat.ChatType
use mesty_api.Chat.ChatType.{ChatType, private_chat, group}
use mesty_api.Chat.Role.{member, owner}
use mesty_api.Chat.Store.{ChatRow, Participant, Store, is_at}
use mesty_api.Chat.Chats.{
  Chat, to_chat, joined_row, get_chat_for_user, chat_of_creator, new_chat, new_participant, knows,
  insert_members, create_group_chat,
}
use mesty_api.Chat.Participants.Roles.{role_of}
use mesty_api.Chat.Chats.Members.{absent, others_stay, role_in-insert_members, created-any}

abbrev pub chat : ChatRow → Chat
chat r = record {
  id = r.id;
  chat_type = r.chat_type;
  name = r.name;
  description = r.description;
  avatar_url = r.avatar_url;
  created_by = r.created_by;
  created_at = r.created_at;
}

pub to_chat_lem : (o : Option ChatRow) (s : Store) → to_chat o s ≡ (ok (Option.map chat o), s)
unfolding to_chat
to_chat_lem none s = refl
to_chat_lem (some r) s = ground (arith, ChatType.from_db_str-as_db_str r.chat_type)

pub get_chat_for_user_lem :
    (u c : ℕ) (s : Store) → get_chat_for_user u c s ≡ (ok (Option.map chat (joined_row u c s)), s)
unfolding get_chat_for_user
get_chat_for_user_lem u c s = to_chat_lem (joined_row u c s) s

pub chat_of_creator_lem :
    (u c : ℕ) (s : Store)
    → chat_of_creator u c s ≡ (elim (joined_row u c s) [
      | none ↦ (err (not_found "chat not found"), s)
      | some r ↦ (ok (chat r), s)
    ])
unfolding chat_of_creator
chat_of_creator_lem u c s = ground (arith, get_chat_for_user_lem u c s)

abbrev pub MayCreate : ℕ → ℕ → String → List ℕ → Store → Type 0
MayCreate id creator name ids s =
    (str_eq name "" ≡ false)
    × (any (λ r. r.id == id) s.chats ≡ false)
    × (any (λ v. v == creator) s.users ≡ true)
    × (all (λ u. any (λ v. v == u) s.users) ids ≡ true)

abbrev pub created : ℕ → ℕ → ℕ → String → List ℕ → Store → Store
created id now creator name ids s = record s {
  chats = new_chat id now group (some name) creator ∷ s.chats;
  participants =
      insert_members now id creator ids
        (new_participant now id creator owner creator ∷ s.participants);
}

-- the row of the group
abbrev pub group_row : ℕ → ℕ → ℕ → String → ChatRow
group_row id now creator name = record {
  id = id;
  chat_type = group;
  name = some name;
  description = none;
  avatar_url = none;
  created_by = some creator;
  invite_link = none;
  created_at = now;
  updated_at = now;
  deleted_at = none;
}

-- a row of another chat, or one that the creator has just made
abbrev pub is_entered : ℕ → ℕ → ℕ → Participant → Bool
is_entered id now creator p =
    not (p.chat_id == id)
    || p.joined_at == now
      && is_none p.left_at
      && is_none p.encryption_key_enc
      && elim p.added_by [ none ↦ false | some v ↦ v == creator ]

-- What a new group is: the named chat of its creator, who owns it, with the listed users as members
-- and nobody else, all since now; every other chat keeps its rows and participants as they are, and
-- nothing else changes.
pub record IsNewGroup (id now creator : ℕ) (name : String) (ids : List ℕ) (s : Store) (c : Chat)
    (t : Store) : Type 0 where
  pub shown : c ≡ chat (group_row id now creator name)
  pub stored : t.chats ≡ group_row id now creator name ∷ s.chats
  pub owned : role_of id creator t ≡ some owner
  pub joined :
      (u : ℕ) → u ≢ creator → role_of id u t ≡ (if any (λ v. v == u) ids then some member else none)
  pub entered : all (is_entered id now creator) t.participants ≡ true
  pub elsewhere :
      (d : ℕ)
      → id ≢ d
      → select_where (λ (p : Participant). p.chat_id == d) t.participants
        ≡ select_where (λ (p : Participant). p.chat_id == d) s.participants
  pub users : t.users ≡ s.users
  pub published : t.published ≡ s.published

-- no row of before is one of the new group
none_before :
    (id now k : ℕ) (ps : List Participant)
    → ((u : ℕ) → any (is_at id u) ps ≡ false)
    → all (is_entered id now k) ps ≡ true
none_before id now k [] fresh = refl
none_before id now k (p ∷ ps) fresh =
    ground (arith, fresh p.user_id, none_before id now k ps (λ u. ground (arith, fresh u)))

all_entered :
    (id now k : ℕ) (us : List ℕ) (ps : List Participant)
    → all (is_entered id now k) ps ≡ true
    → all (is_entered id now k) (insert_members now id k us ps) ≡ true
unfolding insert_members
all_entered id now k [] ps e = e
all_entered id now k (v ∷ us) ps e = ground (
  arith,
  e,
  all_entered id now k us ps,
  all_entered id now k us (new_participant now id v member k ∷ ps),
)

other_rows :
    (id now k : ℕ) (ids : List ℕ) (s : Store) (d : ℕ)
    → id ≢ d
    → select_where
        (λ (p : Participant). p.chat_id == d)
        (insert_members now id k ids (new_participant now id k owner k ∷ s.participants))
      ≡ select_where (λ (p : Participant). p.chat_id == d) s.participants
other_rows id now k ids s d other =
    let e : (id == d) ≡ false = ground arith in
    ground
      (arith, e, others_stay now id k k d e ids (new_participant now id k owner k ∷ s.participants))

-- `create_group_chat` succeeds exactly for a name that is not empty, an id that no chat has and users
-- that exist, if no participant has the new id before; then the creator owns the group, the listed users
-- are its members and nobody else is, and every other chat keeps its rows and participants. Otherwise
-- nothing changes.
pub create_group_chat-Guarded :
    (id now creator : ℕ) (name : String) (ids : List ℕ) (s : Store)
    → ((u : ℕ) → any (is_at id u) s.participants ≡ false)
    → Guarded s
        (MayCreate id creator name ids s)
        (IsNewGroup id now creator name ids s)
        (create_group_chat id now creator name ids s)
unfolding create_group_chat
create_group_chat-Guarded id now creator name ids s fresh =
    let members = λ (u : ℕ).
      role_in-insert_members now id creator u ids
        (new_participant now id creator owner creator ∷ s.participants) in
    elim (Bool-cases (
      not (str_eq name "")
      && not (any (λ r. r.id == id) s.chats)
      && knows creator s
      && all (λ u. knows u s) ids)) [
        | inr refused ↦ Guarded-err _ _ _ _ (λ x. ground arith) (ground arith) (λ m. ground arith)
        | inl allowed ↦
            let t = created id now creator name ids s in
            let own : role_of id creator t ≡ some owner = ground (arith, members creator) in
            Guarded-ok _ _ _ _ {a = chat (new_chat id now group (some name) creator)} {t = t}
              (ground (
                arith,
                chat_of_creator_lem creator id t,
                own,
                created-any now id creator creator ids
                    (new_participant now id creator owner creator ∷ s.participants),
              ))
              (ground arith, ground arith, ground arith, ground arith)
              (record {
                shown = refl;
                stored = refl;
                owned = own;
                joined = λ u other.
                    ground (arith, members u, fresh u, absent now id creator u s.participants);
                entered =
                    all_entered id now creator ids
                      (new_participant now id creator owner creator ∷ s.participants)
                      (ground (arith, none_before id now creator s.participants fresh));
                elsewhere = λ d other. other_rows id now creator ids s d other;
                users = refl;
                published = refl;
              })
      ]
