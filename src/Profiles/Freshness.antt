-- ===== src/Profiles/Freshness.antt =====
-- How old a profile may be that the endpoints of crates/api/src/handlers/users/handlers.rs answer with.
use mesty_api.Common.{
  ℕ, ◌+◌, ◌<◌, ◌≡◌, ◌⊎◌, sym, ap, ◌∙◌, subst, inl, inr, Bool, true, false, Option, none, some, List,
  ◌∷◌, ◌&&◌, ◌||◌, ◌==◌, ==_iff, any, find?, find?-holds, ltb, if◌then◌else◌, arith, Bool-cases,
  Option-cases,
}
use mesty_api.DomainError.{ok, err, not_found}
use mesty_api.Profiles.Store.{
  UserRow, Profile, Entry, Store, is_account, profile_in, is_user_blocked, live_profile, get_cached,
  set_cached, find_profile_by_id,
}
use mesty_api.Profiles.Handlers.{read_profile, get_user_profile, get_my_profile}
use mesty_api.Profiles.Histories.{
  History, Held, now_held, held_before, Reached, start, other_read, own_read, change,
}

abbrev entry_of : ℕ → Store → Option Entry
entry_of i s = elim s.profile_cache [ none ↦ none | some cache ↦ cache i ]

-- a profile that a read found in the table, at a time of the history
abbrev Recorded : History → ℕ → Profile → ℕ → Type 0
Recorded h i p expiry =
    (at : ℕ) × (users : List UserRow) × Held h at users
    × (profile_in i users ≡ some p)
    × (expiry ≡ at + 300)

abbrev IsFresh : History → Store → Type 0
IsFresh h s = (i : ℕ) (e : Entry) → entry_of i s ≡ some e → Recorded h i e.profile e.expires_at

later :
    (h : History) (x : ℕ × List UserRow) (i : ℕ) (p : Profile) (expiry : ℕ)
    → Recorded h i p expiry
    → Recorded (x ∷ h) i p expiry
later h x i p expiry (at, users, held, found, end) = (at, users, held_before held, found, end)

profile_in_id :
    (i : ℕ) (users : List UserRow) (p : Profile) → profile_in i users ≡ some p → p.id ≡ i
unfolding profile_in
profile_in_id i users p e = elim (Option-cases (find? (is_account i) users)) [
  | inl f ↦ absurd (ground arith)
  | inr (u, f) ↦
      let there : is_account i u ≡ true = find?-holds (is_account i) users u f in
      let same : u.id ≡ i = (==_iff u.id i).0 (ground (arith, there)) in ground (arith, e, f, same)
]

entry_of-set_cached :
    (now : ℕ) (p : Profile) (s : Store) (i : ℕ) (e : Entry)
    → entry_of i (set_cached now p s) ≡ some e
    → (((i == p.id) ≡ true) × (e ≡ record { profile = p; expires_at = now + 300 }))
      ⊎ (entry_of i s ≡ some e)
unfolding set_cached
entry_of-set_cached now p s i e h = elim (Option-cases s.profile_cache) [
  | inl f ↦ absurd (ground (arith, f))
  | inr (c, f) ↦ elim (Bool-cases (i == p.id)) [
    | inl d ↦ inl (d, ground (arith, f, h))
    | inr d ↦ inr (ground (arith, f, h))
  ]
]

read_profile_cached :
    (now i : ℕ) (s : Store) (p : Profile)
    → get_cached now i s ≡ some p
    → read_profile now i s ≡ (ok p, s)
unfolding read_profile
read_profile_cached now i s p e = ground (arith, e)

read_profile_missed :
    (now i : ℕ) (s : Store)
    → get_cached now i s ≡ none
    → read_profile now i s ≡ (elim (profile_in i s.users) [
      | none ↦ (err (not_found "User not found"), s)
      | some p ↦ (ok p, set_cached now p s)
    ])
unfolding read_profile find_profile_by_id
read_profile_missed now i s e = ground (arith, e)

get_cached-entry_of :
    (now i : ℕ) (s : Store) (p : Profile)
    → get_cached now i s ≡ some p
    → (e : Entry) × (entry_of i s ≡ some e) × (e.profile ≡ p) × (now < e.expires_at)
unfolding get_cached live_profile
get_cached-entry_of now i s p h = elim (Option-cases s.profile_cache) [
  | inl f ↦ absurd (ground (arith, f))
  | inr (c, f) ↦ elim (Option-cases (c i)) [
    | inl g ↦ absurd (ground (arith, f, g))
    | inr (e, g) ↦ elim (Bool-cases (ltb now e.expires_at)) [
      | inl live ↦ (e, ground (arith, f, g), ground (arith, f, g, live), ground (arith, live))
      | inr gone ↦ absurd (ground (arith, f, g, gone))
    ]
  ]
]

set_cached-IsFresh :
    (now i : ℕ) (h : History) (s : Store) (p : Profile)
    → profile_in i s.users ≡ some p
    → IsFresh h s
    → IsFresh ((now, s.users) ∷ h) (set_cached now p s)
set_cached-IsFresh now i h s p found fresh j e f = elim (entry_of-set_cached now p s j e f) [
  | inl (d, new) ↦
      let same : i ≡ j = sym (profile_in_id i s.users p found) ∙ sym ((==_iff j p.id).0 d) in
      (
        now,
        s.users,
        now_held,
        subst (λ (x : ℕ). profile_in x s.users ≡ some e.profile) same
            (found ∙ sym (ap (λ (x : Entry). some x.profile) new)),
        ap (λ (x : Entry). x.expires_at) new,
      )
  | inr old ↦ later h (now, s.users) j e.profile e.expires_at (fresh j e old)
]

read_profile-IsFresh :
    (now i : ℕ) (h : History) (s : Store)
    → IsFresh h s
    → IsFresh ((now, s.users) ∷ h) (read_profile now i s).1
read_profile-IsFresh now i h s fresh =
    let longer = (now, s.users) ∷ h in
    let same : IsFresh longer s =
      λ j e f. later h (now, s.users) j e.profile e.expires_at (fresh j e f) in
    let unchanged = λ (e : (read_profile now i s).1 ≡ s). subst (IsFresh longer) (sym e) same in
    elim (Option-cases (get_cached now i s)) [
      | inr (p, e) ↦ unchanged (ap (λ r. r.1) (read_profile_cached now i s p e))
      | inl e ↦ elim (Option-cases (profile_in i s.users)) [
        | inl f ↦ unchanged (ground (arith, read_profile_missed now i s e, f))
        | inr (p, f) ↦
            let stored : (read_profile now i s).1 ≡ set_cached now p s =
              ground (arith, read_profile_missed now i s e, f) in
            subst (IsFresh longer) (sym stored) (set_cached-IsFresh now i h s p f fresh)
      ]
    ]

get_user_profile_lem :
    (now u v : ℕ) (s : Store)
    → get_user_profile now u v s ≡ (
        if any (λ b. b.blocker_id == u && b.blocked_id == v) s.user_blocks
        then (err (not_found "User not found"), s)
        else if any (λ b. b.blocker_id == v && b.blocked_id == u) s.user_blocks
        then (err (not_found "User not found"), s)
        else read_profile now v s)
unfolding get_user_profile is_user_blocked
get_user_profile_lem now u v s = ground arith

abbrev pub either_blocks : ℕ → ℕ → Store → Bool
either_blocks u v s =
    any (λ b. b.blocker_id == u && b.blocked_id == v) s.user_blocks
    || any (λ b. b.blocker_id == v && b.blocked_id == u) s.user_blocks

get_user_profile-IsFresh :
    (now u v : ℕ) (h : History) (s : Store)
    → IsFresh h s
    → IsFresh ((now, s.users) ∷ h) (get_user_profile now u v s).1
get_user_profile-IsFresh now u v h s fresh =
    let law = get_user_profile_lem now u v s in
    let longer = (now, s.users) ∷ h in
    elim (Bool-cases (either_blocks u v s)) [
      | inl a ↦
          let same : (get_user_profile now u v s).1 ≡ s = ground (arith, law, a) in
          subst (IsFresh longer) (sym same)
            (λ j e f. later h (now, s.users) j e.profile e.expires_at (fresh j e f))
      | inr a ↦
          let same : (get_user_profile now u v s).1 ≡ (read_profile now v s).1 =
            ground (arith, law, a) in
          subst (IsFresh longer) (sym same) (read_profile-IsFresh now v h s fresh)
    ]

Reached-IsFresh : (h : History) (s : Store) → Reached h s → IsFresh h s
unfolding get_my_profile
Reached-IsFresh _ _ (start users blocks redis) = λ i e f. absurd (ground (arith, f))
Reached-IsFresh _ _ (other_read {h} {s} now u v r) =
    get_user_profile-IsFresh now u v h s (Reached-IsFresh h s r)
Reached-IsFresh _ _ (own_read {h} {s} now u r) =
    read_profile-IsFresh now u h s (Reached-IsFresh h s r)
Reached-IsFresh _ _ (change {h} {s} users blocks redis r) = Reached-IsFresh h s r

read_profile-Recorded :
    (now i : ℕ) (h : History) (s t : Store) (p : Profile)
    → IsFresh h s
    → read_profile now i s ≡ (ok p, t)
    → (at : ℕ) × (users : List UserRow) × Held ((now, s.users) ∷ h) at users
      × (profile_in i users ≡ some p)
      × (now < at + 300)
read_profile-Recorded now i h s t p fresh e = elim (Option-cases (get_cached now i s)) [
  | inr (q, f) ↦
      let (entry, there, same, live) = get_cached-entry_of now i s q f in
      let (at, users, held, found, end) = fresh i entry there in
      let answer : q ≡ p = ground (arith, e, read_profile_cached now i s q f) in
      (at, users, held_before held, found ∙ ap some (same ∙ answer), ground (arith, live, end))
  | inl f ↦ elim (Option-cases (profile_in i s.users)) [
    | inl g ↦ absurd (ground (arith, e, read_profile_missed now i s f, g))
    | inr (q, g) ↦
        let answer : q ≡ p = ground (arith, e, read_profile_missed now i s f, g) in
        (now, s.users, now_held, g ∙ ap some answer, omega arith)
  ]
]

-- In every state that reads of profiles and changes of the database reach from an empty cache: when
-- get_user_profile answers with a profile, neither of the two users blocks the other, and the table held
-- that profile of an active account at a read less than 300 seconds before, or holds it now.
pub get_user_profile-Reached :
    (h : History) (s t : Store) (now auth user_id : ℕ) (p : Profile)
    → Reached h s
    → get_user_profile now auth user_id s ≡ (ok p, t)
    → (either_blocks auth user_id s ≡ false)
      × ((at : ℕ) × (users : List UserRow) × Held ((now, s.users) ∷ h) at users
          × (profile_in user_id users ≡ some p)
          × (now < at + 300))
get_user_profile-Reached h s t now auth user_id p r e =
    let law = get_user_profile_lem now auth user_id s in
    elim (Bool-cases (either_blocks auth user_id s)) [
      | inl a ↦ absurd (ground (arith, law, e, a))
      | inr a ↦ (
        a,
        read_profile-Recorded now user_id h s t p (Reached-IsFresh h s r)
            (ground (arith, law, e, a)),
      )
    ]
