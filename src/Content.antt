-- ===== src/Content.antt =====
-- audio_tool_api/models/file.{h,cpp} and project.{h,cpp}: files and projects on the tables that
-- their SQL statements name, as in Models. `Fresh` is what the server gives a new row: its number,
-- its UUID and the default of the column `is_deleted`.
pub mod Files
pub mod Projects
use audio_tool_api.Prelude.{
  ℕ, Bool, true, false, not, ◌&&◌, Option, none, some, List, [], ◌∷◌, ◌++◌, map, ◌==◌,
  if◌then◌else◌, Bytes, bytes_eq, codes, ◌≡◌, refl, arith,
}
use audio_tool_api.Http.Process.{Exit}
use audio_tool_api.Models.{first, fails_with}

pub record Fresh : Type 0 where
  pub id : ℕ
  pub guid : Bytes
  pub is_deleted : Bool

pub record FileRow : Type 0 where
  pub id : ℕ
  pub guid : Bytes
  pub name : Bytes
  pub data_column : Bytes
  pub size : ℕ
  pub created : ℕ
  pub user_id : ℕ
  pub sample_rate : ℕ
  pub is_deleted : Bool

pub record FileModel : Type 0 where
  pub id : ℕ
  pub contents : Bytes
  pub size : ℕ
  pub guid : Bytes
  pub name : Bytes
  pub sample_rate : ℕ
  pub user_id : ℕ

-- The rows of a SELECT.
unfoldable pub select {ℓ} : {A : Type ℓ} → (A → Bool) → List A → List A
select p [] = []
select p (x ∷ xs) = let later = select p xs in if p x then x ∷ later else later

pub select-append {ℓ} :
    {A : Type ℓ} (p : A → Bool) (xs ys : List A) → select p (xs ++ ys) ≡ select p xs ++ select p ys
unfolding select
select-append p [] ys = refl
select-append p (x ∷ xs) ys = ground (arith, select-append p xs ys)

-- `file_model::create`, at the time `now`.
unfoldable pub file_create : Fresh → ℕ → List FileRow × FileModel → Exit (List FileRow × FileModel)
unfolding first
file_create fresh now (files, f) =
    let row : FileRow = record {
      id = fresh.id;
      guid = fresh.guid;
      name = f.name;
      data_column = f.contents;
      size = f.size;
      created = now;
      user_id = f.user_id;
      sample_rate = f.sample_rate;
      is_deleted = fresh.is_deleted;
    } in
    let files' = files ++ row ∷ [] in
    elim (first (λ r. r.id == fresh.id) files') [
      | none ↦ fails_with "Failed to confirm file insert" (files', f)
      | some r ↦ ((files', record f { id = r.id; guid = r.guid }), none)
    ]

-- What both lookups read from a row, besides the column that they ask for.
abbrev pub read_file : Bool → FileRow → FileModel → FileModel
read_file with_data r f = record f {
  size = r.size;
  user_id = r.user_id;
  sample_rate = r.sample_rate;
  contents = if with_data then r.data_column else f.contents;
}

unfoldable pub file_by_guid : List FileRow → Bytes → Bool → FileModel → Exit FileModel
unfolding first
file_by_guid files _guid with_data f = elim (first (λ r. bytes_eq r.guid _guid) files) [
  | none ↦ fails_with "No file by this guid" f
  | some r ↦ (record (read_file with_data r f) { id = r.id; guid = _guid }, none)
]

unfoldable pub file_by_id : List FileRow → ℕ → Bool → FileModel → Exit FileModel
unfolding first
file_by_id files _id with_data f = elim (first (λ r. r.id == _id) files) [
  | none ↦ fails_with "No file by this guid" f
  | some r ↦ (record (read_file with_data r f) { id = _id; guid = r.guid }, none)
]

abbrev pub listed_file : FileRow → FileModel
listed_file r = record {
  id = r.id;
  contents = [];
  size = r.size;
  guid = r.guid;
  name = r.name;
  sample_rate = r.sample_rate;
  user_id = r.user_id;
}

unfoldable pub get_files_for_user : List FileRow → ℕ → List FileModel
unfolding select
get_files_for_user files user_id =
    map listed_file (select (λ r. r.user_id == user_id && not r.is_deleted) files)

pub record ProjectRow : Type 0 where
  pub id : ℕ
  pub guid : Bytes
  pub creator_id : ℕ
  pub name : Bytes
  pub project_data : Bytes
  pub is_deleted : Bool

-- The model has the columns of the row.
abbrev pub ProjectModel : Type 0
ProjectModel = ProjectRow

unfoldable pub project_by_guid : List ProjectRow → Bytes → ProjectModel → Exit ProjectModel
unfolding first
project_by_guid projects _guid p = elim (first (λ r. bytes_eq r.guid _guid) projects) [
  | none ↦ fails_with "No project by this guid" p
  | some r ↦ (record r { guid = _guid }, none)
]

abbrev pub update_row : ProjectModel → ProjectRow → ProjectRow
update_row p r =
    if bytes_eq r.guid p.guid
    then record r { name = p.name; project_data = p.project_data; is_deleted = p.is_deleted }
    else r

unfoldable pub project_update : ProjectModel → List ProjectRow → List ProjectRow
project_update p projects = map (update_row p) projects

unfoldable pub project_create :
    Fresh → List ProjectRow × ProjectModel → Exit (List ProjectRow × ProjectModel)
unfolding first
project_create fresh (projects, p) =
    let row : ProjectRow = record {
      id = fresh.id;
      guid = fresh.guid;
      creator_id = p.creator_id;
      name = p.name;
      project_data = p.project_data;
      is_deleted = fresh.is_deleted;
    } in
    let projects' = projects ++ row ∷ [] in
    elim (first (λ r. r.id == fresh.id) projects') [
      | none ↦ fails_with "Project failed to create" (projects', p)
      | some r ↦ ((projects', record p { guid = r.guid }), none)
    ]

abbrev pub listed_project : Bool → ProjectRow → ProjectModel
listed_project with_data r = record r { project_data = if with_data then r.project_data else [] }

unfoldable pub get_projects_for_user : List ProjectRow → ℕ → Bool → List ProjectModel
unfolding select
get_projects_for_user projects user_id with_data =
    map (listed_project with_data) (select (λ r. r.creator_id == user_id) projects)
