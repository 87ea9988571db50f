-- ===== src/Content/Projects.antt =====
-- A project that was created is found, and an update is seen by every lookup.
use audio_tool_api.Prelude.{
  ◌≡◌, refl, ap, ◌∙◌, none, some, List, [], ◌∷◌, ◌++◌, ◌==◌, if◌then◌else◌, Bytes, bytes_eq, arith,
}
use audio_tool_api.Prelude.Dict.{bytes_eq_refl, bytes_eq_iff}
use audio_tool_api.Http.Process.{Exit}
use audio_tool_api.Models.{first}
use audio_tool_api.Models.Rows.{first-append_last}
use audio_tool_api.Content.{
  Fresh, ProjectRow, ProjectModel, project_by_guid, project_create, project_update,
}

abbrev pub project_row : Fresh → ProjectModel → ProjectRow
project_row fresh p = record p { id = fresh.id; guid = fresh.guid; is_deleted = fresh.is_deleted }

project_create-row :
    (fresh : Fresh) (projects : List ProjectRow) (p : ProjectModel)
    → first (λ r. r.id == fresh.id) projects ≡ none
    → project_create fresh (projects, p)
      ≡ ((projects ++ project_row fresh p ∷ [], record p { guid = fresh.guid }), none)
unfolding project_create
project_create-row fresh projects p n =
    ground (arith, first-append_last (λ r. r.id == fresh.id) projects (project_row fresh p) n)

-- A project that is created with a new number and a new guid: the creation succeeds, and a lookup
-- by that guid finds its creator, name and data.
pub project_create-project_by_guid :
    (fresh : Fresh) (projects : List ProjectRow) (p q : ProjectModel)
    → first (λ r. r.id == fresh.id) projects ≡ none
    → first (λ r. bytes_eq r.guid fresh.guid) projects ≡ none
    → ((project_create fresh (projects, p)).1 ≡ none)
      × (project_by_guid (project_create fresh (projects, p)).0.0 fresh.guid q
          ≡ (project_row fresh p, none))
unfolding project_by_guid
project_create-project_by_guid fresh projects p q n m =
    let made = project_create-row fresh projects p n in
    let last =
      first-append_last (λ r. bytes_eq r.guid fresh.guid) projects (project_row fresh p) m in
    (
      ap (λ x. x.1) made,
      ap (λ x. project_by_guid x.0.0 fresh.guid q) made
          ∙ ground (arith, last, bytes_eq_refl fresh.guid),
    )

-- What a lookup of the guid `g` gives after an update with `p`.
abbrev pub seen : ProjectModel → Bytes → Exit ProjectModel → Exit ProjectModel
seen p g (q, some thrown) = (q, some thrown)
seen p g (q, none) = (
  if bytes_eq p.guid g
      then record q { name = p.name; project_data = p.project_data; is_deleted = p.is_deleted }
      else q,
  none,
)

-- After `update`, a lookup of its guid finds the new name, data and mark of deletion, with the
-- number and the creator as before, and a lookup of another guid finds what it found before; a
-- lookup that failed still fails.
pub project_update-project_by_guid :
    (p q : ProjectModel) (projects : List ProjectRow) (g : Bytes)
    → project_by_guid (project_update p projects) g q ≡ seen p g (project_by_guid projects g q)
unfolding project_by_guid project_update first
project_update-project_by_guid p q [] g = refl
project_update-project_by_guid p q (r ∷ projects) g = ground (
  arith,
  project_update-project_by_guid p q projects g,
  bytes_eq_iff r.guid g,
  bytes_eq_iff r.guid p.guid,
  bytes_eq_iff p.guid g,
)
