-- ===== src/Stories/Queries.antt =====
-- `PostgresStoryRepository` (crates/infrastructure/src/repositories/stories.rs). `now` is `NOW()`, and
-- `id` the new id. Its errors pass through `DomainError::from_boxed_err`.
use mesty_api.Common.{
  ℕ, ◌+◌, Bool, true, false, String, Option, none, some, List, [], ◌∷◌, ◌&&◌, ◌||◌, ◌==◌, not, any,
  find?, if◌then◌else◌, str_eq, ltb, unwrap_or, select_where, update_where, upsert, order_with,
}
use mesty_api.DomainError.{
  validation, already_exists, internal, Result, pure, gets, modify, throw_if, ◌>>=◌, ◌>>◌,
}
use mesty_api.Contacts.Store.{is_contact}
use mesty_api.Stories.Store.{
  Story, StoryPrivacyException, StoryView, UserRow, Store, is_story_privacy, is_live, is_view,
  is_exception,
}

-- seconds: `INTERVAL '24 hours'`
abbrev pub lifetime : ℕ
lifetime = 86_400

abbrev pub new_story : ℕ → ℕ → ℕ → String → String → Option String → String → Story
new_story id now u url content_type caption privacy = record {
  id = id;
  user_id = u;
  content_url = url;
  content_type = content_type;
  caption = caption;
  privacy = privacy;
  created_at = now;
  expires_at = now + lifetime;
  deleted_at = none;
}

abbrev pub knows : ℕ → Store → Bool
knows u s = any (λ (r : UserRow). r.id == u) s.users

abbrev pub has_story : ℕ → Store → Bool
has_story i s = any (λ (r : Story). r.id == i) s.stories

unfoldable pub create :
    ℕ → ℕ → ℕ → String → String → Option String → String → Store → Result Story × Store
create id now u url content_type caption privacy = do
  let row : Story = new_story id now u url content_type caption privacy
  throw_if (not (is_story_privacy privacy)) (internal "Database operation failed")
  throw_if (← gets (has_story id)) (already_exists "Resource already exists")
  throw_if (← gets (λ s. not (knows u s))) (validation "Referenced resource not found")
  modify (λ s. record s { stories = row ∷ s.stories })
  pure row

unfoldable pub find_by_id : ℕ → ℕ → Store → Result (Option Story) × Store
find_by_id now i = gets (λ s. find? (λ r. r.id == i && is_live now r) s.stories)

unfoldable pub delete : ℕ → ℕ → ℕ → Store → Result (Unit {0}) × Store
delete now i u = modify (λ s. record s {
  stories =
      update_where (λ r. r.id == i && r.user_id == u) (λ r. record r { deleted_at = some now })
        s.stories;
})

abbrev pub new_exception : ℕ → ℕ → Bool → StoryPrivacyException
new_exception i u b = record { story_id = i; user_id = u; is_excluded = b }

unfoldable pub add_privacy_exception : ℕ → ℕ → Bool → Store → Result (Unit {0}) × Store
add_privacy_exception i u b = do
  throw_if
      (← gets (λ s. not (any (is_exception i u) s.exceptions) && not (has_story i s && knows u s)))
      (validation "Referenced resource not found")
  modify (λ s. record s {
    exceptions =
        upsert (is_exception i u) (new_exception i u b) (λ e. record e { is_excluded = b })
          s.exceptions;
  })

abbrev pub new_view : ℕ → ℕ → ℕ → ℕ → Option String → StoryView
new_view id now i u reaction = record {
  id = id;
  story_id = i;
  viewer_id = u;
  reaction = reaction;
  viewed_at = now;
}

-- `INSERT INTO story_views … ON CONFLICT (story_id, viewer_id) DO UPDATE SET`
unfoldable pub upsert_view : StoryView → (StoryView → StoryView) → Store → Result (Unit {0}) × Store
upsert_view v f = do
  throw_if
      (← gets (λ s.
        not (any (is_view v.story_id v.viewer_id) s.views)
        && not (has_story v.story_id s && knows v.viewer_id s)))
      (validation "Referenced resource not found")
  modify (λ s. record s { views = upsert (is_view v.story_id v.viewer_id) v f s.views })

unfoldable pub mark_viewed : ℕ → ℕ → ℕ → ℕ → Store → Result (Unit {0}) × Store
mark_viewed id now i u = upsert_view (new_view id now i u none) (λ v. record v { viewed_at = now })

unfoldable pub add_reaction : ℕ → ℕ → ℕ → ℕ → String → Store → Result (Unit {0}) × Store
add_reaction id now i u reaction =
    upsert_view (new_view id now i u (some reaction))
      (λ v. record v { reaction = some reaction; viewed_at = now })

unfoldable pub remove_reaction : ℕ → ℕ → ℕ → Store → Result (Unit {0}) × Store
remove_reaction now i u = modify (λ s. record s {
  views = update_where (is_view i u) (λ v. record v { reaction = none; viewed_at = now }) s.views;
})

unfoldable pub has_viewed : ℕ → ℕ → Store → Result Bool × Store
has_viewed i u = gets (λ s. any (is_view i u) s.views)

abbrev pub is_contact_of : ℕ → ℕ → Store → Bool
is_contact_of o u s = any (is_contact o u) s.contacts

-- an exception of the story for the user, with the flag
abbrev pub has_exception : ℕ → ℕ → Bool → Store → Bool
has_exception i u b s =
    any (λ e. is_exception i u e && (if b then e.is_excluded else not e.is_excluded)) s.exceptions

-- the five modes of `privacy`
unfoldable pub shows_to : ℕ → Story → Store → Bool
shows_to u r s =
    str_eq r.privacy "everyone"
    || str_eq r.privacy "contacts" && is_contact_of r.user_id u s
    || str_eq r.privacy "contacts_except"
      && is_contact_of r.user_id u s
      && not (has_exception r.id u true s)
    || str_eq r.privacy "selected" && has_exception r.id u false s

unfoldable pub can_user_view_story : ℕ → ℕ → ℕ → Store → Result Bool × Store
can_user_view_story now i u =
    gets (λ s.
      any (λ r. r.id == i && is_live now r && not (r.user_id == u) && shows_to u r s) s.stories)

pub record StoryWithUser : Type 0 where
  pub story : Story
  pub username : Option String
  pub display_name : String
  pub avatar_url : Option String
  pub viewed : Bool

-- the joins with `users` and `user_profiles`
abbrev pub with_user : Bool → Story → UserRow → StoryWithUser
with_user b r u = record {
  story = r;
  username = u.username;
  display_name = unwrap_or u.display_name "";
  avatar_url = u.avatar_url;
  viewed = b;
}

-- the inner join with the author
abbrev pub join_users : (Story → Bool) → List UserRow → List Story → List StoryWithUser
join_users viewed users [] = []
join_users viewed users (r ∷ rs) =
    let rest = join_users viewed users rs in
    elim (find? (λ (u : UserRow). u.id == r.user_id) users) [
      | none ↦ rest
      | some u ↦ with_user (viewed r) r u ∷ rest
    ]

-- `ORDER BY has_viewed ASC, created_at DESC`
abbrev pub goes_first : StoryWithUser → StoryWithUser → Bool
goes_first a b =
    not a.viewed && b.viewed
    || (if a.viewed then b.viewed else not b.viewed) && ltb b.story.created_at a.story.created_at

unfoldable pub list_for_user : ℕ → ℕ → Store → Result (List StoryWithUser) × Store
list_for_user now u = gets (λ s. order_with goes_first (
    join_users (λ r. any (is_view r.id u) s.views) s.users
      (select_where (λ r. is_live now r && not (r.user_id == u) && shows_to u r s) s.stories)))

unfoldable pub list_my_stories : ℕ → ℕ → Store → Result (List StoryWithUser) × Store
list_my_stories now u = gets (λ s.
    order_with (λ a b. ltb b.story.created_at a.story.created_at)
      (join_users (λ r. true) s.users
        (select_where (λ r. r.user_id == u && is_live now r) s.stories)))

pub record StoryViewWithUser : Type 0 where
  pub viewer_id : ℕ
  pub display_name : String
  pub avatar_url : Option String
  pub reaction : Option String
  pub viewed_at : ℕ

abbrev pub join_viewers : List UserRow → List StoryView → List StoryViewWithUser
join_viewers users [] = []
join_viewers users (v ∷ vs) =
    let rest = join_viewers users vs in
    elim (find? (λ (u : UserRow). u.id == v.viewer_id) users) [
      | none ↦ rest
      | some u ↦
          record {
            viewer_id = v.viewer_id;
            display_name = unwrap_or u.display_name "";
            avatar_url = u.avatar_url;
            reaction = v.reaction;
            viewed_at = v.viewed_at;
          }
          ∷ rest
    ]

unfoldable pub get_views_with_user : ℕ → Store → Result (List StoryViewWithUser) × Store
get_views_with_user i = gets (λ s.
    order_with (λ a b. ltb b.viewed_at a.viewed_at)
      (join_viewers s.users (select_where (λ v. v.story_id == i) s.views)))
