-- ===== src/Chat/Participants/Insertion.antt =====
-- The insertion of a participant: its constraints and the row that it returns.
use mesty_api.Common.{
  ℕ, ◌≡◌, inl, inr, refl, Bool, Option, none, some, List, [], ◌∷◌, ◌&&◌, ◌||◌, ◌==◌, not, any,
  find?, if◌then◌else◌, update_where, upsert, arith, Option-cases, find?-eq-any, find?-holds,
}
use mathlib.Core.Option
use mesty_api.DomainError.{validation, ok, err}
use mesty_api.Chat.Role.{member}
use mesty_api.Chat.Store.{Participant, Store, is_at, private_chat_is_full, insert_participant}
use mesty_api.Chat.Participants.{ParticipantDetail, insert_returning}
use mesty_api.Chat.Participants.Roles.{detail, to_detail_lem}

-- The constraints that an insertion meets: a private chat has room, and the key is there already or
-- its chat and user are.
abbrev pub fits : ℕ → ℕ → Store → Bool
fits c u s =
    not (private_chat_is_full c s)
    && (any (is_at c u) s.participants || any (λ r. r.id == c) s.chats && any (λ v. v == u) s.users)

abbrev pub admitted : Participant → (Participant → Participant) → Store → Store
admitted new f s = record s {
  participants = upsert (is_at new.chat_id new.user_id) new f s.participants;
}

insert_participant_lem :
    (new : Participant) (f : Participant → Participant) (s : Store)
    → insert_participant new f s ≡ (
        if private_chat_is_full new.chat_id s
        then (err (validation "Validation constraint failed"), s)
        else if fits new.chat_id new.user_id s
        then (ok tt, admitted new f s)
        else (err (validation "Referenced resource not found"), s))
unfolding insert_participant
insert_participant_lem new f s = ground arith

module _ (c u : ℕ) (new : Participant) (f : Participant → Participant)
    (row : (new.chat_id ≡ c) × (new.user_id ≡ u))
    (keeps : (p : Participant) → ((f p).chat_id ≡ p.chat_id) × ((f p).user_id ≡ p.user_id)) where
  find?-updated :
      (ps : List Participant)
      → find? (is_at c u) (update_where (is_at c u) f ps) ≡ Option.map f (find? (is_at c u) ps)
  find?-updated [] = refl
  find?-updated (p ∷ ps) = ground (arith, keeps p, find?-updated ps)

  -- the row of the key after an insertion
  find?-upsert :
      (ps : List Participant)
      → find? (is_at c u) (upsert (is_at c u) new f ps)
        ≡ (elim (find? (is_at c u) ps) [ none ↦ some new | some p ↦ some (f p) ])
  find?-upsert ps = ground (arith, find?-updated ps, find?-eq-any (is_at c u) ps)

-- the row of a key after an insertion that fits
abbrev pub row_after : Participant → (Participant → Participant) → Store → Participant
row_after new f s = elim (find? (is_at new.chat_id new.user_id) s.participants) [
  | none ↦ new
  | some p ↦ f p
]

pub insert_returning_lem :
    (new : Participant) (f : Participant → Participant) (s : Store)
    → ((p : Participant) → ((f p).chat_id ≡ p.chat_id) × ((f p).user_id ≡ p.user_id))
    → insert_returning new f s ≡ (
        if private_chat_is_full new.chat_id s
        then (err (validation "Validation constraint failed"), s)
        else if fits new.chat_id new.user_id s
        then (ok (detail (row_after new f s)), admitted new f s)
        else (err (validation "Referenced resource not found"), s))
unfolding insert_returning
insert_returning_lem new f s keeps =
    let found : find? (is_at new.chat_id new.user_id) (admitted new f s).participants
        ≡ some (row_after new f s) =
      rw (find?-upsert new.chat_id new.user_id new f (refl, refl) keeps s.participants)
        (ground arith) in
    ground
      (arith, insert_participant_lem new f s, to_detail_lem (row_after new f s) (admitted new f s))

pub row_after_all :
    (new : Participant) (f : Participant → Participant) (s : Store) (P : Participant → Type 0)
    → P new
    → ((p : Participant) → P (f p))
    → P (row_after new f s)
row_after_all new f s P h hf = go (find? (is_at new.chat_id new.user_id) s.participants)
  where
    go : (o : Option Participant) → P (elim o [ none ↦ new | some p ↦ f p ])
    go none = h
    go (some p) = hf p

pub row_after-key :
    (new : Participant) (f : Participant → Participant) (s : Store)
    → ((p : Participant) → ((f p).chat_id ≡ p.chat_id) × ((f p).user_id ≡ p.user_id))
    → ((row_after new f s).user_id ≡ new.user_id) × ((row_after new f s).chat_id ≡ new.chat_id)
row_after-key new f s keeps =
    elim (Option-cases (find? (is_at new.chat_id new.user_id) s.participants)) [
      | inl e ↦ ground (arith, e)
      | inr (p, e) ↦
          ground (arith, e, keeps p, find?-holds (is_at new.chat_id new.user_id) s.participants p e)
    ]

-- The row that an admission returns: the user, in the chat, as a member.
abbrev pub IsNewMember : ℕ → ℕ → ℕ → ParticipantDetail → Type 0
IsNewMember now c u d = (d.user_id ≡ u) × (d.chat_id ≡ c) × (d.role ≡ member) × (d.joined_at ≡ now)
