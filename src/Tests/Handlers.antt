-- ===== src/Tests/Handlers.antt =====
-- An upload, a download and a change of a project, with texts for JSON values.
use audio_tool_api.Prelude.{
  ℕ, some, none, false, ◌≡◌, refl, bytes_eq, List, [], ◌∷◌, ◌++◌, Bytes, codes, Option,
}
use audio_tool_api.Request.{HttpRequest}
use audio_tool_api.Http.Response.{HttpResponse}
use audio_tool_api.Http.Process.{Exit}
use audio_tool_api.Models.{User}
use audio_tool_api.Content.{Fresh, ProjectRow, project_by_guid}
use audio_tool_api.Handlers.{Json, Site, project_post}
use audio_tool_api.Handlers.Owners.{project_post_any_user}

-- An object in which every key has itself for its value.
abbrev texts : Json Bytes
texts = record {
  field = λ object key. some key;
  as_string = λ value. some value;
  as_int = λ value. some 5;
  of_file = λ f. f.guid;
  of_files = λ fs. [];
  of_project = λ p. p.name;
  of_projects = λ ps. [];
  of_user = λ u. u.email_address;
  output_and_status = λ output status. output;
}

abbrev user_number : ℕ → User
user_number n = record {
  id = n;
  email_address = [];
  current_session = record { token = []; expires = 0; created = 0; user_id = n };
}

abbrev blank : HttpResponse Bytes
blank = record {
  headers = [];
  status = 200;
  content_type = codes "application/json";
  use_json_body = false;
  json_content = [];
  body_content = [];
}

abbrev mix : ProjectRow
mix = record {
  id = 1;
  guid = codes "guid";
  creator_id = 5;
  name = codes "mix";
  project_data = codes "{}";
  is_deleted = false;
}

abbrev site : Site Bytes
site = record {
  files = [];
  projects = mix ∷ [];
  user = user_number 5;
  response = blank;
  response_data = [];
}

abbrev requested : List (Bytes × Bytes) → List Bytes → HttpRequest
requested params files = record {
  path = codes "/file";
  content_type = [];
  url_params = params;
  headers = [];
  files = files;
}

abbrev up : HttpRequest
up = requested ((codes "name", codes "song") ∷ []) ((1 ∷ 2 ∷ []) ∷ [])

abbrev down : HttpRequest
down = requested ((codes "guid", codes "g9") ∷ []) []

abbrev louder : Bytes → Option (Bytes × ℕ)
louder input = some (input ++ input, 44100)

abbrev fresh : Fresh
fresh = record { id = 9; guid = codes "g9"; is_deleted = false }

-- The values of the keys `guid`, `name` and `project_data` are those texts; user 6 is logged in,
-- and the project is user 5's.
abbrev remixed : ProjectRow
remixed = record mix { name = codes "name"; project_data = codes "project_data" }

project_post_any_user_example :
    let posted : Exit (Site Bytes) =
      project_post texts mix [] (record site { user = user_number 6 }) in
    (posted.1 ≡ none)
    × (project_by_guid posted.0.projects (codes "guid") mix ≡ (remixed, none))
    × ((other : Bytes)
        → bytes_eq (codes "guid") other ≡ false
        → project_by_guid posted.0.projects other mix ≡ project_by_guid site.projects other mix)
unfolding project_by_guid
project_post_any_user_example =
    project_post_any_user texts mix mix mix [] site (user_number 6) (codes "guid") (codes "name")
      (codes "project_data") (codes "guid", refl, refl) (codes "name", refl, refl)
      (codes "project_data", refl, refl) refl
