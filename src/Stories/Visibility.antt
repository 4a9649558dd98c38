-- ===== src/Stories/Visibility.antt =====
-- Who sees a story: the list against the test of a single story, in
-- crates/infrastructure/src/repositories/stories.rs, and the audience that create_story of
-- crates/api/src/handlers/stories/handlers.rs gives a new story.
use mesty_api.Common.{
  ℕ, ◌≡◌, refl, sym, subst, ap, ◌∙◌, inl, inr, Bool, true, List, [], ◌∷◌, ◌++◌, ◌&&◌, ◌||◌, ◌==◌,
  not, any, find?, find?-eq-any, arith, Option-cases, Bool-cases, All, select_where, order_with,
  insert_with,
}
use mesty_api.DomainError.{ok}
use mesty_api.Stories.Store.{Story, UserRow, Store, is_live, is_view}
use mesty_api.Stories.Queries.{
  shows_to, can_user_view_story, StoryWithUser, join_users, goes_first, list_for_user,
}
use mesty_api.Stories.Handlers.{Group, add_to_group, group_by_user, list_stories}

-- an item of the story
abbrev pub is_item : ℕ → StoryWithUser → Bool
is_item i x = x.story.id == i

-- the story stands in a group
abbrev pub is_grouped : ℕ → List Group → Bool
is_grouped i gs = any (λ (g : Group). any (is_item i) g.stories) gs

module _ (i : ℕ) where
  any-append :
      (xs ys : List StoryWithUser)
      → any (is_item i) (xs ++ ys) ≡ (any (is_item i) xs || any (is_item i) ys)
  any-append [] ys = ground arith
  any-append (x ∷ xs) ys = ground (arith, any-append xs ys)

  is_grouped-add_to_group :
      (x : StoryWithUser) (gs : List Group)
      → is_grouped i (add_to_group x gs) ≡ (is_item i x || is_grouped i gs)
  unfolding add_to_group
  is_grouped-add_to_group x [] = ground arith
  is_grouped-add_to_group x (g ∷ gs) =
      ground (arith, is_grouped-add_to_group x gs, any-append g.stories (x ∷ []))

  is_grouped-group_by_user :
      (gs : List Group) (xs : List StoryWithUser)
      → is_grouped i (group_by_user gs xs) ≡ (is_grouped i gs || any (is_item i) xs)
  unfolding group_by_user
  is_grouped-group_by_user gs [] = ground arith
  is_grouped-group_by_user gs (x ∷ xs) =
      ground (arith, is_grouped-group_by_user (add_to_group x gs) xs, is_grouped-add_to_group x gs)

  any-insert_with :
      (x : StoryWithUser) (xs : List StoryWithUser)
      → any (is_item i) (insert_with goes_first x xs) ≡ (is_item i x || any (is_item i) xs)
  any-insert_with x [] = refl
  any-insert_with x (y ∷ ys) = elim (Bool-cases (goes_first y x)) [
    | inl e ↦ rw e (ground (arith, any-insert_with x ys))
    | inr e ↦ rw e refl
  ]

  any-order_with :
      (xs : List StoryWithUser) → any (is_item i) (order_with goes_first xs) ≡ any (is_item i) xs
  any-order_with [] = refl
  any-order_with (x ∷ xs) =
      ground (arith, any-insert_with x (order_with goes_first xs), any-order_with xs)

  -- the join loses no story, as every author is a user
  any-join_users :
      (p viewed : Story → Bool) (users : List UserRow) (rs : List Story)
      → All (λ (r : Story). any (λ (u : UserRow). u.id == r.user_id) users ≡ true) rs
      → any (is_item i) (join_users viewed users (select_where p rs))
        ≡ any (λ r. r.id == i && p r) rs
  any-join_users p viewed users [] h = refl
  any-join_users p viewed users (r ∷ rs) (h, hs) =
      elim (Option-cases (find? (λ (u : UserRow). u.id == r.user_id) users)) [
        | inl e ↦
            absurd (ground (arith, e, find?-eq-any (λ (u : UserRow). u.id == r.user_id) users))
        | inr (u, e) ↦ elim (Bool-cases (p r)) [
          | inl y ↦ ground (arith, e, y, any-join_users p viewed users rs hs)
          | inr y ↦ ground (arith, y, any-join_users p viewed users rs hs)
        ]
      ]

-- every story has an author among the users, by the foreign key
abbrev pub HasAuthors : Store → Type 0
HasAuthors s =
    All (λ (r : Story). any (λ (u : UserRow). u.id == r.user_id) s.users ≡ true) s.stories

module _ (now u i : ℕ) (s : Store) where
  abbrev is_visible : Story → Bool
  is_visible r = is_live now r && not (r.user_id == u) && shows_to u r s

  same_test :
      (rs : List Story)
      → any (λ r. r.id == i && is_visible r) rs
        ≡ any (λ r. r.id == i && is_live now r && not (r.user_id == u) && shows_to u r s) rs
  same_test [] = refl
  same_test (r ∷ rs) = ground (arith, same_test rs)

  abbrev shown : List StoryWithUser
  shown = join_users (λ r. any (is_view r.id u) s.views) s.users (select_where is_visible s.stories)

  list_stories_lem : (list_stories now u s).0 ≡ ok (group_by_user [] (order_with goes_first shown))
  unfolding list_stories list_for_user
  list_stories_lem = refl

  grouped :
      HasAuthors s
      → (can_user_view_story now i u s).0
        ≡ ok (is_grouped i (group_by_user [] (order_with goes_first shown)))
  unfolding can_user_view_story
  grouped authors = ap ok (
      sym (
        is_grouped-group_by_user i [] (order_with goes_first shown)
        ∙ any-order_with i shown
        ∙ any-join_users i is_visible (λ r. any (is_view r.id u) s.views) s.users s.stories authors
        ∙ same_test s.stories))

-- The groups of `list_stories` hold a story exactly if `can_user_view_story` lets the user view it, if
-- every story has an author among the users.
pub list_stories-can_user_view_story :
    (now u i : ℕ) (s : Store) (gs : List Group)
    → HasAuthors s
    → (list_stories now u s).0 ≡ ok gs
    → (can_user_view_story now i u s).0 ≡ ok (is_grouped i gs)
list_stories-can_user_view_story now u i s gs authors e =
    let same : group_by_user [] (order_with goes_first (shown now u i s)) ≡ gs =
      ground (arith, e, list_stories_lem now u i s) in
    subst (λ g. (can_user_view_story now i u s).0 ≡ ok (is_grouped i g)) same
      (grouped now u i s authors)
