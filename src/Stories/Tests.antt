-- ===== src/Stories/Tests.antt =====
-- Two stories of one user, on which the theorems on crates/infrastructure/src/repositories/stories.rs and
-- crates/api/src/handlers/stories/handlers.rs are applied.
use mesty_api.Common.{ℕ, ◌≡◌, refl, true, false, String, none, some, [], ◌∷◌, ◌+◌}
use mesty_api.DomainError.{ok}
use mesty_api.Contacts.Store.{ContactRow}
use mesty_api.Stories.Store.{Story, UserRow, Store}
use mesty_api.Stories.Queries.{shows_to, can_user_view_story, list_for_user}
use mesty_api.Stories.Handlers.{
  group_by_user, add_to_group, list_stories, view_story, react_to_story,
}
use mesty_api.Stories.Visibility.{list_stories-can_user_view_story}
use mesty_api.Stories.Interactions.{view_and_react-refused}

abbrev person : ℕ → UserRow
person u = record { id = u; username = none; avatar_url = none; display_name = none }

abbrev story : ℕ → String → ℕ → Story
story i privacy at = record {
  id = i;
  user_id = 1;
  content_url = "u";
  content_type = "image";
  caption = none;
  privacy = privacy;
  created_at = at;
  expires_at = at + 86_400;
  deleted_at = none;
}

abbrev knows_two : ContactRow
knows_two = record {
  id = 50;
  owner_id = 1;
  contact_id = some 2;
  phone = "+573000000";
  nickname = none;
  is_favorite = false;
  created_at = 1;
}

-- user 1 has a story for everyone and one for nobody; user 2 is a contact, and user 3 is not
abbrev example : Store
example = record {
  users = person 1 ∷ person 2 ∷ person 3 ∷ [];
  contacts = knows_two ∷ [];
  stories = story 20 "everyone" 100 ∷ story 21 "only_me" 110 ∷ [];
  exceptions = [];
  views = [];
  inbox = record { users = 1 ∷ 2 ∷ 3 ∷ []; rows = [] };
  pushed = [];
}

list_stories-can_user_view_story_example : (can_user_view_story 200 20 2 example).0 ≡ ok true
unfolding list_stories list_for_user group_by_user add_to_group shows_to
list_stories-can_user_view_story_example =
    list_stories-can_user_view_story 200 2 20 example _ (refl, (refl, tt)) refl

hidden : can_user_view_story 200 21 2 example ≡ (ok false, example)
unfolding can_user_view_story shows_to
hidden = refl

view_and_react-refused_example :
    ((view_story (λ u. true) 90 200 2 "{}" 21 example).1 ≡ example)
    × ((react_to_story (λ u. true) 90 200 2 "{}" "!" 21 example).1 ≡ example)
view_and_react-refused_example =
    view_and_react-refused (λ u. true) 90 200 2 "{}" 21 example "!" hidden
