-- ===== src/Stories/Interactions.antt =====
-- Viewing a story and reacting to it: view_story and react_to_story of
-- crates/api/src/handlers/stories/handlers.rs.
use mesty_api.Common.{
  ℕ, ◌≡◌, ap, inl, inr, Bool, false, String, Option, none, some, ◌&&◌, ◌==◌, ==_iff, find?,
  find?-holds, if◌then◌else◌, arith, Option-cases,
}
use mesty_api.DomainError.{ok, err, not_found}
use mesty_api.Notifications.{story_reaction}
use mesty_api.Notifications.Clearing.{create_notification_lem}
use mesty_api.Stories.Store.{Story, StoryView, Store, is_live}
use mesty_api.Stories.Queries.{
  find_by_id, new_view, upsert_view, add_reaction, has_viewed, can_user_view_story,
}
use mesty_api.Stories.Handlers.{
  existing_story, tell_author, view_as, view_story, react_as, react_to_story,
}

-- the story of an id, unless it is deleted or has ended
abbrev pub live_story : ℕ → ℕ → Store → Option Story
live_story now i s = find? (λ r. r.id == i && is_live now r) s.stories

existing_story_lem :
    (now i : ℕ) (s : Store)
    → existing_story now i s ≡ (elim (live_story now i s) [
      | none ↦ (err (not_found "Story not found"), s)
      | some r ↦ (ok r, s)
    ])
unfolding existing_story find_by_id
existing_story_lem now i s = ground arith

module _ (is_online : ℕ → Bool) (id now u : ℕ) (data_json : String) (i : ℕ) (s : Store) where
  view_missing : live_story now i s ≡ none → (view_story is_online id now u data_json i s).1 ≡ s
  unfolding view_story
  view_missing e = ground (arith, e, existing_story_lem now i s)

  view_found :
      (r : Story)
      → live_story now i s ≡ some r
      → view_story is_online id now u data_json i s
        ≡ (if r.user_id == u then (ok tt, s) else view_as is_online id now u data_json r s)
  unfolding view_story
  view_found r e = ground (arith, e, existing_story_lem now i s)

  react_missing :
      (reaction : String)
      → live_story now i s ≡ none
      → (react_to_story is_online id now u data_json reaction i s).1 ≡ s
  unfolding react_to_story
  react_missing reaction e = ground (arith, e, existing_story_lem now i s)

  react_found :
      (reaction : String) (r : Story)
      → live_story now i s ≡ some r
      → react_to_story is_online id now u data_json reaction i s ≡ (
          if r.user_id == u then (ok tt, s) else react_as is_online id now u data_json reaction r s)
  unfolding react_to_story
  react_found reaction r e = ground (arith, e, existing_story_lem now i s)

  same_id : (r : Story) → live_story now i s ≡ some r → r.id ≡ i
  same_id r e =
      (==_iff r.id i).0
        (ground (arith, find?-holds (λ (q : Story). q.id == i && is_live now q) s.stories r e))

  view_as_refused :
      (r : Story)
      → can_user_view_story now r.id u s ≡ (ok false, s)
      → (view_as is_online id now u data_json r s).1 ≡ s
  unfolding view_as
  view_as_refused r e = ground (arith, e)

  react_as_refused :
      (reaction : String) (r : Story)
      → can_user_view_story now r.id u s ≡ (ok false, s)
      → (react_as is_online id now u data_json reaction r s).1 ≡ s
  unfolding react_as
  react_as_refused reaction r e = ground (arith, e)

  -- A user who may not view a story changes nothing by viewing it or reacting to it.
  pub view_and_react-refused :
      (reaction : String)
      → can_user_view_story now i u s ≡ (ok false, s)
      → ((view_story is_online id now u data_json i s).1 ≡ s)
        × ((react_to_story is_online id now u data_json reaction i s).1 ≡ s)
  view_and_react-refused reaction e = elim (Option-cases (live_story now i s)) [
    | inl none_here ↦ (view_missing none_here, react_missing reaction none_here)
    | inr (r, here) ↦
        let e' : can_user_view_story now r.id u s ≡ (ok false, s) = rw (same_id r here) e in
        (
          ground (arith, view_found r here, view_as_refused r e'),
          ground (arith, react_found reaction r here, react_as_refused reaction r e'),
        )
  ]

  -- the notification of a reaction has a type that the database does not know
  tell_author-inbox :
      (r : Story) (t : Store)
      → (tell_author is_online id now r story_reaction data_json t).inbox ≡ t.inbox
  unfolding tell_author
  tell_author-inbox r t = ground (
    arith,
    create_notification_lem id now
        (record { user_id = r.user_id; notification_type = story_reaction; data_json = data_json })
        t.inbox,
  )

  upsert_view-inbox :
      (v : StoryView) (f : StoryView → StoryView) (t : Store)
      → (upsert_view v f t).1.inbox ≡ t.inbox
  unfolding upsert_view
  upsert_view-inbox v f t = ground arith

  react_as-inbox :
      (reaction : String) (r : Story)
      → (react_as is_online id now u data_json reaction r s).1.inbox ≡ s.inbox
  unfolding react_as can_user_view_story has_viewed add_reaction
  react_as-inbox reaction r =
      let v = new_view id now r.id u (some reaction) in
      let f = λ (w : StoryView). record w { reaction = some reaction; viewed_at = now } in
      ground (arith, upsert_view-inbox v f s, tell_author-inbox r (upsert_view v f s).1)

  -- A reaction leaves no notification for the author, whatever the answer is.
  pub react_to_story-inbox :
      (reaction : String)
      → (react_to_story is_online id now u data_json reaction i s).1.inbox ≡ s.inbox
  react_to_story-inbox reaction = elim (Option-cases (live_story now i s)) [
    | inl none_here ↦ ap (λ (t : Store). t.inbox) (react_missing reaction none_here)
    | inr (r, here) ↦ ground (arith, react_found reaction r here, react_as-inbox reaction r)
  ]
