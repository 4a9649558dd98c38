-- ===== src/Chat/Chats/Members.antt =====
-- The rows that insert_members adds: the loop over the participants in create_group_chat of
-- crates/infrastructure/src/repositories/chat.rs.
use mesty_api.Common.{
  ℕ, ◌≡◌, refl, false, none, some, List, [], ◌∷◌, ◌&&◌, ◌==◌, is_some, not, select_where, any,
  if◌then◌else◌, arith, find?-eq-any,
}
use mesty_api.Chat.Role.{member}
use mesty_api.Chat.Store.{Participant, is_at, is_active}
use mesty_api.Chat.Chats.{new_participant, insert_members}
use mesty_api.Chat.Participants.Roles.{role_in}

module _ (now c k u : ℕ) where
  pub absent : (ps : List Participant) → any (is_at c u) ps ≡ false → role_in c u ps ≡ none
  absent [] e = refl
  absent (p ∷ ps) e = ground (arith, absent ps)

  -- the participants of the other chats
  pub others_stay :
      (d : ℕ)
      → (c == d) ≡ false
      → (us : List ℕ) (ps : List Participant)
      → select_where (λ (p : Participant). p.chat_id == d) (insert_members now c k us ps)
        ≡ select_where (λ (p : Participant). p.chat_id == d) ps
  unfolding insert_members
  others_stay d e [] ps = refl
  others_stay d e (v ∷ us) ps =
      ground (
        arith,
        e,
        others_stay d e us ps,
        others_stay d e us (new_participant now c v member k ∷ ps),
      )

  -- the roles in the other chats
  pub roles_stay :
      (d : ℕ)
      → (c == d) ≡ false
      → (us : List ℕ) (ps : List Participant)
      → role_in d u (insert_members now c k us ps) ≡ role_in d u ps
  unfolding insert_members
  roles_stay d e [] ps = refl
  roles_stay d e (v ∷ us) ps =
      ground
        (arith, e, roles_stay d e us ps, roles_stay d e us (new_participant now c v member k ∷ ps))

  -- the members that a new group gets beside those that it has
  pub role_in-insert_members :
      (us : List ℕ) (ps : List Participant)
      → role_in c u (insert_members now c k us ps) ≡ (
          if any (is_at c u) ps
          then role_in c u ps
          else if not (u == k) && any (λ v. v == u) us
          then some member
          else none)
  unfolding insert_members
  role_in-insert_members [] ps = ground (arith, absent ps)
  role_in-insert_members (v ∷ us) ps = ground (
    arith,
    absent ps,
    role_in-insert_members us ps,
    role_in-insert_members us (new_participant now c v member k ∷ ps),
  )

pub created-any :
    (now c k u : ℕ) (us : List ℕ) (ps : List Participant)
    → any (is_active c u) (insert_members now c k us ps)
      ≡ is_some (role_in c u (insert_members now c k us ps))
created-any now c k u us ps =
    ground (arith, find?-eq-any (is_active c u) (insert_members now c k us ps))
