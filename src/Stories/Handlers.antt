-- ===== src/Stories/Handlers.antt =====
-- The story endpoints of crates/api/src/handlers/stories/handlers.rs. `is_online` stands for the presence
-- keys of Redis, and `id` for the ids of the rows that a request inserts.
use mesty_api.Common.{
  ℕ, Bool, String, Option, none, some, List, [], ◌∷◌, ◌++◌, ◌==◌, not, any, if◌then◌else◌, str_eq,
}
use mesty_api.DomainError.{
  validation, not_found, unauthorized, Result, pure, modify, throw_if, ok_or, ◌>>=◌, ◌>>◌,
}
use mesty_api.Notifications as Notifications
use mesty_api.Notifications.{NotificationType, NewNotification, story_view, story_reaction}
use mesty_api.Stories.Store.{Story, Store}
use mesty_api.Stories.Queries.{
  create, find_by_id, delete, add_privacy_exception, mark_viewed, add_reaction, has_viewed,
  can_user_view_story, StoryWithUser, list_for_user, list_my_stories, StoryViewWithUser,
  get_views_with_user,
}

-- `VALID_PRIVACY_VALUES.contains(&v)`
unfoldable pub is_valid_privacy : String → Bool
is_valid_privacy v =
    any (λ p. str_eq p v)
      ("everyone" ∷ "contacts" ∷ "contacts_except" ∷ "only_me" ∷ "selected" ∷ [])

-- the loop over the exceptions of a request
unfoldable pub add_exceptions : ℕ → Bool → List ℕ → Store → Result (Unit {0}) × Store
add_exceptions i is_excluded [] = pure tt
add_exceptions i is_excluded (u ∷ us) = do
  add_privacy_exception i u is_excluded
  add_exceptions i is_excluded us

abbrev pub listed : Option (List ℕ) → List ℕ
listed none = []
listed (some us) = us

-- the id of the story and its end
unfoldable pub create_story :
    ℕ
    → ℕ
    → ℕ
    → String
    → String
    → Option String
    → String
    → Option (List ℕ)
    → Store
    → Result (ℕ × ℕ) × Store
create_story id now auth url content_type caption privacy exceptions = do
  throw_if (not (is_valid_privacy privacy)) (
      validation
        "Invalid privacy value. Must be one of: everyone, contacts, contacts_except, only_me, selected")
  story ← create id now auth url content_type caption privacy
  add_exceptions story.id (str_eq privacy "contacts_except") (listed exceptions)
  pure (story.id, story.expires_at)

pub record Group : Type 0 where
  pub user_id : ℕ
  pub username : Option String
  pub display_name : String
  pub avatar_url : Option String
  pub stories : List StoryWithUser

abbrev pub new_group : StoryWithUser → Group
new_group s = record {
  user_id = s.story.user_id;
  username = s.username;
  display_name = s.display_name;
  avatar_url = s.avatar_url;
  stories = s ∷ [];
}

-- the story into the first group of its user, or into a new one at the end
unfoldable pub add_to_group : StoryWithUser → List Group → List Group
add_to_group s [] = new_group s ∷ []
add_to_group s (g ∷ gs) =
    let rest = add_to_group s gs in
    if g.user_id == s.story.user_id
    then record g { stories = g.stories ++ s ∷ [] } ∷ gs
    else g ∷ rest

-- the loop of `list_stories`
unfoldable pub group_by_user : List Group → List StoryWithUser → List Group
group_by_user grouped [] = grouped
group_by_user grouped (s ∷ ss) = group_by_user (add_to_group s grouped) ss

unfoldable pub list_stories : ℕ → ℕ → Store → Result (List Group) × Store
list_stories now auth = do stories ← list_for_user now auth; pure (group_by_user [] stories)

unfoldable pub get_my_stories : ℕ → ℕ → Store → Result (List StoryWithUser) × Store
get_my_stories now auth = list_my_stories now auth

-- `find_by_id(…)?.ok_or_else(…)`
unfoldable pub existing_story : ℕ → ℕ → Store → Result Story × Store
existing_story now i = do found ← find_by_id now i; ok_or found (not_found "Story not found")

unfoldable pub delete_story : ℕ → ℕ → ℕ → Store → Result (Unit {0}) × Store
delete_story now auth i = do
  story ← existing_story now i
  throw_if (not (story.user_id == auth)) (unauthorized "Cannot delete another user's story")
  delete now i auth

-- the notification, whose failure is logged only, and the push job for an author who is not online
unfoldable pub tell_author : (ℕ → Bool) → ℕ → ℕ → Story → NotificationType → String → Store → Store
tell_author is_online id now story kind data_json s =
    let n : NewNotification = record {
      user_id = story.user_id;
      notification_type = kind;
      data_json = data_json;
    } in
    let t : Store = record s { inbox = (Notifications.create_notification id now n s.inbox).1 } in
    if is_online story.user_id then t else record t {
      pushed =
          record {
            user_id = story.user_id;
            notification_type = Notifications.as_db_str kind;
            story_id = story.id;
          }
          ∷ t.pushed;
    }

unfoldable pub view_as : (ℕ → Bool) → ℕ → ℕ → ℕ → String → Story → Store → Result (Unit {0}) × Store
view_as is_online id now auth data_json story = do
  can_view ← can_user_view_story now story.id auth
  throw_if (not can_view) (unauthorized "You do not have permission to view this story")
  mark_viewed id now story.id auth
  modify (tell_author is_online id now story story_view data_json)

unfoldable pub view_story : (ℕ → Bool) → ℕ → ℕ → ℕ → String → ℕ → Store → Result (Unit {0}) × Store
view_story is_online id now auth data_json i = do
  story ← existing_story now i
  if story.user_id == auth then pure tt else view_as is_online id now auth data_json story

unfoldable pub react_as :
    (ℕ → Bool) → ℕ → ℕ → ℕ → String → String → Story → Store → Result (Unit {0}) × Store
react_as is_online id now auth data_json reaction story = do
  can_view ← can_user_view_story now story.id auth
  throw_if (not can_view) (unauthorized "You do not have permission to interact with this story")
  viewed ← has_viewed story.id auth
  throw_if (not viewed) (validation "Cannot react to a story you haven't viewed")
  add_reaction id now story.id auth reaction
  modify (tell_author is_online id now story story_reaction data_json)

unfoldable pub react_to_story :
    (ℕ → Bool) → ℕ → ℕ → ℕ → String → String → ℕ → Store → Result (Unit {0}) × Store
react_to_story is_online id now auth data_json reaction i = do
  story ← existing_story now i
  if story.user_id == auth then pure tt else react_as is_online id now auth data_json reaction story

unfoldable pub get_story_views : ℕ → ℕ → ℕ → Store → Result (List StoryViewWithUser) × Store
get_story_views now auth i = do
  story ← existing_story now i
  throw_if (not (story.user_id == auth)) (unauthorized "Only the story author can view viewers")
  get_views_with_user i
