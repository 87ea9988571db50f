-- ===== src/Handlers/Owners.antt =====
-- Who may change a project: `post` of audio_tool_api/handlers/project.cpp.
use audio_tool_api.Prelude.{
  ◌≡◌, ◌∙◌, refl, ap, sym, subst, false, some, none, List, Bytes, bytes_eq, [], ◌∷◌, codes, arith,
}
use audio_tool_api.Prelude.Dict.{bytes_eq_iff}
use audio_tool_api.Http.Process.{Exit}
use audio_tool_api.Models.{User, first}
use audio_tool_api.Content.{ProjectRow, ProjectModel, project_by_guid}
use audio_tool_api.Content.Projects.{seen, project_update-project_by_guid}
use audio_tool_api.Handlers.{
  Json, Site, project_post, save_project, string_or_thrown, found_or_thrown,
}

-- A lookup that succeeds does so whatever the model held before, and gives the guid asked for.
project_by_guid_found :
    (projects : List ProjectRow) (guid : Bytes) (p p' q : ProjectModel)
    → project_by_guid projects guid p ≡ (q, none)
    → (q.guid ≡ guid) × (project_by_guid projects guid p' ≡ (q, none))
unfolding project_by_guid first
project_by_guid_found [] guid p p' q h = absurd (cc)
project_by_guid_found (r ∷ projects) guid p p' q h =
    ground (arith, project_by_guid_found projects guid p p' q, bytes_eq_iff r.guid guid)

seen_apart :
    (p : ProjectModel) (g : Bytes) (found : Exit ProjectModel)
    → bytes_eq p.guid g ≡ false
    → seen p g found ≡ found
seen_apart p g (q, some thrown) e = refl
seen_apart p g (q, none) e = rw e refl

module _ {J : Type 0} (json : Json J) where
  -- The body holds a text under the key.
  abbrev pub HoldsText : J → Bytes → Bytes → Type 0
  HoldsText body key t =
      (value : J) × (json.field body key ≡ some value) × (json.as_string value ≡ some t)

  string_or_thrown-text :
      (value : J) (s : Site J) (t : Bytes) (more : Bytes → Exit (Site J))
      → json.as_string value ≡ some t
      → string_or_thrown json (some value) s more ≡ more t
  string_or_thrown-text value s t more e = rw (e, string_or_thrown) refl

  project_post-save_project :
      (p q : ProjectModel) (body : J) (s : Site J) (guid name data_text : Bytes)
      → HoldsText body (codes "guid") guid
      → HoldsText body (codes "name") name
      → HoldsText body (codes "project_data") data_text
      → project_by_guid s.projects guid p ≡ (q, none)
      → project_post json p body s
        ≡ save_project json (record q { name = name; project_data = data_text }) s
  unfolding project_post
  project_post-save_project p q body s guid name data_text (g, eg, tg) (n, en, tn) (d, ed, td) h =
      let save = λ (x : ProjectModel) (t u : Bytes).
        save_project json (record x { name = t; project_data = u }) s in
      let with_data = λ (x : ProjectModel) (t : Bytes).
        string_or_thrown json (json.field body (codes "project_data")) s (save x t) in
      let with_name = λ (x : ProjectModel). string_or_thrown json (some n) s (with_data x) in
      let with_project =
        λ (t : Bytes). found_or_thrown json s (project_by_guid s.projects t p) with_name in
      rw (eg, en, project_post)
        (string_or_thrown-text g s guid with_project tg
          ∙ ap (λ e. found_or_thrown json s e with_name) h
          ∙ string_or_thrown-text n s name (with_data q) tn
          ∙ ap (λ o. string_or_thrown json o s (save q name)) ed
          ∙ string_or_thrown-text d s data_text (save q name) td)

  -- For a body that holds the guid of a project that is found, a name and the project's data, and
  -- whoever is logged in, `post` throws nothing; afterwards the guid finds that project with the new
  -- name and data and all else, its creator included, as before, and every other guid finds what it
  -- found: any user can change the project of any other.
  pub project_post_any_user :
      (p p' q : ProjectModel) (body : J) (s : Site J) (anyone : User) (guid name data_text : Bytes)
      → HoldsText body (codes "guid") guid
      → HoldsText body (codes "name") name
      → HoldsText body (codes "project_data") data_text
      → project_by_guid s.projects guid p ≡ (q, none)
      → let posted : Exit (Site J) = project_post json p body (record s { user = anyone }) in
        (posted.1 ≡ none)
        × (project_by_guid posted.0.projects guid p'
            ≡ (record q { name = name; project_data = data_text }, none))
        × ((other : Bytes)
            → bytes_eq guid other ≡ false
            → project_by_guid posted.0.projects other p' ≡ project_by_guid s.projects other p')
  project_post_any_user p p' q body s anyone guid name data_text g n d h =
      let s' : Site J = record s { user = anyone } in
      let changed : ProjectModel = record q { name = name; project_data = data_text } in
      let found = project_by_guid_found s.projects guid p p' q h in
      let finds = λ (other : Bytes). project_update-project_by_guid changed p' s.projects other in
      rw (project_post-save_project p q body s' guid name data_text g n d h) (
        refl,
        finds guid
            ∙ ap (seen changed guid) found.1
            ∙ ground (arith, found.0, bytes_eq_iff q.guid guid),
        λ other apart.
            finds other
            ∙ seen_apart changed other (project_by_guid s.projects other p')
                (subst (λ x. bytes_eq x other ≡ false) (sym found.0) apart),
      )
