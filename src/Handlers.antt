-- ===== src/Handlers.antt =====
-- audio_tool_api/handlers/files.cpp, project.cpp and user.cpp: the methods of the handlers on the
-- tables of Models and Content. `J` is the type of JSON values and `Json` what the library does
-- with them; `transcode` is `AP` from the uploaded bytes to the output and its sample rate, or the
-- text that it throws.
pub mod Uploads
pub mod Owners
pub mod Keeping
pub mod Login
pub mod Base
use audio_tool_api.Prelude.{
  ℕ, Bool, true, false, Option, none, some, List, [], ◌∷◌, if◌then◌else◌, length, Bytes, codes,
}
use Prim.Native.String.{String}
use audio_tool_api.Prelude.Dict.{lookup}
use audio_tool_api.Request.{HttpRequest}
use audio_tool_api.Http.Response.{HttpResponse, set_json, set_text}
use audio_tool_api.Http.Process.{Thrown, http_exception, std_exception, unknown, Exit}
use audio_tool_api.Models.{Store, User}
use audio_tool_api.Content.{
  Fresh, FileRow, FileModel, file_create, file_by_guid, get_files_for_user, ProjectRow,
  ProjectModel, project_create, project_by_guid, project_update, get_projects_for_user,
}

-- `none` of a conversion is the library's type error.
pub record Json (J : Type 0) : Type 0 where
  pub field : J → Bytes → Option J
  pub as_string : J → Option Bytes
  pub as_int : J → Option ℕ
  pub of_file : FileModel → J
  pub of_files : List FileModel → J
  pub of_project : ProjectModel → J
  pub of_projects : List ProjectModel → J
  pub of_user : User → J
  pub output_and_status : J → ℕ → J

-- The members of the handlers, and the tables that they reach through `db`.
pub record Site (J : Type 0) : Type 0 where
  pub files : List FileRow
  pub projects : List ProjectRow
  pub user : User
  pub response : HttpResponse J
  pub response_data : J

module _ {J : Type 0} (json : Json J) where
  abbrev pub bad_request : String → Site J → Exit (Site J)
  bad_request text s = (s, some (http_exception 400 (codes text)))

  abbrev pub type_error : Site J → Exit (Site J)
  type_error s = (s, some (std_exception (codes "type_error")))

  -- A lookup that throws leaves the handler; the value goes on.
  abbrev pub found_or_thrown : {A : Type 0} → Site J → Exit A → (A → Exit (Site J)) → Exit (Site J)
  found_or_thrown s (a, some thrown) more = (s, some thrown)
  found_or_thrown s (a, none) more = more a

  abbrev pub answer_with : J → Site J → Exit (Site J)
  answer_with value s = (record s { response_data = value }, none)

  -- `request_data.json[key]` as a string, if the key is there.
  abbrev pub string_or_thrown : Option J → Site J → (Bytes → Exit (Site J)) → Exit (Site J)
  string_or_thrown none s more = type_error s
  string_or_thrown (some value) s more = elim (json.as_string value) [
    | none ↦ type_error s
    | some text ↦ more text
  ]

  -- The base class's `finish`.
  abbrev pub model_finish : Site J → Exit (Site J)
  model_finish s = (
    record s {
      response = set_json (json.output_and_status s.response_data s.response.status) s.response;
    },
    none,
  )

  abbrev pub no_file : FileModel
  no_file = record {
    id = 0;
    contents = [];
    size = 0;
    guid = [];
    name = [];
    sample_rate = 0;
    user_id = 0;
  }

  -- The JSON value is that of the request's body.
  unfoldable pub file_get : J → Site J → Exit (Site J)
  file_get body s = elim (json.field body (codes "guid")) [
    | none ↦ bad_request "Must provide GUID of file" s
    | some value ↦ string_or_thrown (some value) s (λ guid.
        found_or_thrown s (file_by_guid s.files guid false no_file)
          (λ f. answer_with (json.of_file f) s))
  ]

  abbrev pub uploaded : Bytes → ℕ → Bytes → ℕ → FileModel
  uploaded output rate name user_id = record no_file {
    contents = output;
    size = length output;
    name = name;
    sample_rate = rate;
    user_id = user_id;
  }

  -- `create` is tried, and a runtime error is only logged.
  abbrev pub store_upload : Fresh → ℕ → FileModel → Site J → Exit (Site J)
  store_upload fresh now f s =
      let made = file_create fresh now (s.files, f) in
      answer_with (json.of_file made.0.1) (record s { files = made.0.0 })

  unfoldable pub file_post :
      (Bytes → Option (Bytes × ℕ)) → Fresh → ℕ → HttpRequest → Site J → Exit (Site J)
  unfolding lookup file_create
  file_post transcode fresh now req s = elim (lookup (codes "name") req.url_params) [
    | none ↦ bad_request "Must include name in URL parameters" s
    | some name ↦ elim req.files [
      | [] ↦ bad_request "Must send at least one file to use this endpoint" s
      | file ∷ more ↦ elim (transcode file) [
        | none ↦ (s, some unknown)
        | some (output, rate) ↦ store_upload fresh now (uploaded output rate name s.user.id) s
      ]
    ]
  ]

  abbrev pub send_data : FileModel → Site J → Exit (Site J)
  send_data f s = (
    record s {
      response = record (set_text f.contents s.response) {
        content_type = codes "application/octet";
      };
    },
    none,
  )

  unfoldable pub file_data_get : HttpRequest → Site J → Exit (Site J)
  unfolding lookup file_by_guid
  file_data_get req s = elim (lookup (codes "guid") req.url_params) [
    | none ↦ bad_request "Must include guid in URL parameters" s
    | some guid ↦ found_or_thrown s (file_by_guid s.files guid true no_file) (λ f. send_data f s)
  ]

  unfoldable pub file_list_get : Site J → Exit (Site J)
  file_list_get s = answer_with (json.of_files (get_files_for_user s.files s.user.id)) s

  unfoldable pub user_get : Site J → Exit (Site J)
  user_get s = answer_with (json.of_user s.user) s

  -- `p` is the project that the response's data held before.
  unfoldable pub project_get : ProjectModel → HttpRequest → Site J → Exit (Site J)
  project_get p req s = elim (lookup (codes "guid") req.url_params) [
    | none ↦ bad_request "Must provide GUID of project" s
    | some guid ↦
        found_or_thrown s (project_by_guid s.projects guid p)
          (λ q. answer_with (json.of_project q) s)
  ]

  abbrev pub save_project : ProjectModel → Site J → Exit (Site J)
  save_project q s =
      answer_with (json.of_project q) (record s { projects = project_update q s.projects })

  -- The fields are converted where the code converts them; `project_data` is not tested before.
  unfoldable pub project_post : ProjectModel → J → Site J → Exit (Site J)
  unfolding project_by_guid project_update
  project_post p body s = elim (json.field body (codes "guid")) [
    | none ↦ bad_request "Must provide GUID of project" s
    | some g ↦ elim (json.field body (codes "name")) [
      | none ↦ bad_request "Must provide name of project" s
      | some n ↦ string_or_thrown (some g) s (λ guid.
          found_or_thrown s (project_by_guid s.projects guid p) (λ q.
            string_or_thrown (some n) s (λ name.
              string_or_thrown (json.field body (codes "project_data")) s (λ data_text.
                save_project (record q { name = name; project_data = data_text }) s))))
    ]
  ]

  abbrev pub create_project : Fresh → ProjectModel → Site J → Exit (Site J)
  create_project fresh p s =
      let made = project_create fresh (s.projects, p) in
      let s' : Site J = record s { projects = made.0.0 } in
      found_or_thrown s' (made.0.1, made.1) (λ q. answer_with (json.of_project q) s')

  abbrev pub new_project : Bytes → Bytes → ℕ → ProjectModel
  new_project name project_data creator_id = record {
    id = 0;
    guid = [];
    creator_id = creator_id;
    name = name;
    project_data = project_data;
    is_deleted = false;
  }

  abbrev pub data_or_empty : Option J → Site J → (Bytes → Exit (Site J)) → Exit (Site J)
  data_or_empty none s more = more (codes "{}")
  data_or_empty (some value) s more = string_or_thrown (some value) s more

  unfoldable pub project_put : Fresh → J → Site J → Exit (Site J)
  unfolding project_create
  project_put fresh body s = elim (json.field body (codes "name")) [
    | none ↦ bad_request "Must provide name of project" s
    | some n ↦ elim (json.field body (codes "creator_id")) [
      | none ↦ bad_request "Must provide creator_id of project" s
      | some c ↦ elim (json.as_int c) [
        | none ↦ type_error s
        | some creator_id ↦ data_or_empty (json.field body (codes "project_data")) s (λ data_text.
            string_or_thrown (some n) s
              (λ name. create_project fresh (new_project name data_text creator_id) s))
      ]
    ]
  ]

  unfoldable pub project_list_get : Site J → Exit (Site J)
  project_list_get s =
      answer_with (json.of_projects (get_projects_for_user s.projects s.user.id false)) s
