-- ===== src/Handlers/Keeping.antt =====
-- What the methods keep of the tables.
use audio_tool_api.Prelude.{
  ℕ, ◌==◌, ◌≡◌, refl, ap, List, [], ◌∷◌, ◌++◌, Option, none, some, Bytes, codes, append-nil,
  append_assoc, sym, ◌∙◌,
}
use audio_tool_api.Prelude.Dict.{lookup}
use audio_tool_api.Request.{HttpRequest}
use audio_tool_api.Http.Process.{Exit, unknown}
use audio_tool_api.Models.{first, fails_with}
use audio_tool_api.Content.Files.{file_row}
use audio_tool_api.Content.{Fresh, FileRow, FileModel, file_create, ProjectModel}
use audio_tool_api.Handlers.{
  Json, Site, found_or_thrown, string_or_thrown, data_or_empty, file_get, file_post, file_data_get,
  project_get, project_post, project_put, bad_request, uploaded, store_upload,
}

-- A table that got rows at its end.
abbrev pub Extends : {A : Type 0} → List A → List A → Type 0
Extends xs ys = (more : List _) × (ys ≡ xs ++ more)

module _ {A : Type 0} where
  pub Extends-refl : (xs : List A) → Extends xs xs
  Extends-refl xs = ([], sym (append-nil xs))

  pub Extends-trans : (xs ys zs : List A) → Extends xs ys → Extends ys zs → Extends xs zs
  Extends-trans xs ys zs (more, e) (rest, f) =
      (more ++ rest, f ∙ ap (λ l. l ++ rest) e ∙ append_assoc xs more rest)

module _ {κ} {J : Type 0} (json : Json J) (P : Site J → Type κ) (s : Site J) (p : P s) where
  found_keeps :
      {A : Type 0} (x : Exit A) (more : A → Exit (Site J))
      → ((a : A) → P (more a).0)
      → P (found_or_thrown json s x more).0
  found_keeps (a, none) more h = h a
  found_keeps (a, some thrown) more h = p

  chosen_keeps :
      {A : Type 0} (o : Option A) (x : Exit (Site J)) (more : A → Exit (Site J))
      → P x.0
      → ((a : A) → P (more a).0)
      → let e : Exit (Site J) = elim o [ none ↦ x | some a ↦ more a ] in P e.0
  chosen_keeps none x more q h = q
  chosen_keeps (some a) x more q h = h a

  string_keeps :
      (o : Option J) (more : Bytes → Exit (Site J))
      → ((text : Bytes) → P (more text).0)
      → P (string_or_thrown json o s more).0
  string_keeps none more h = p
  string_keeps (some value) more h = chosen_keeps (json.as_string value) _ more p h

  data_keeps :
      (o : Option J) (more : Bytes → Exit (Site J))
      → ((text : Bytes) → P (more text).0)
      → P (data_or_empty json o s more).0
  data_keeps none more h = h (codes "{}")
  data_keeps (some value) more h = string_keeps (some value) more h

module _ {J : Type 0} (json : Json J) (s : Site J) where
  abbrev Same : Site J → Type 0
  Same x = x.files ≡ s.files

  pub file_get-files : (body : J) → (file_get json body s).0.files ≡ s.files
  unfolding file_get
  file_get-files body =
      chosen_keeps json Same s refl (json.field body (codes "guid")) _ _ refl λ value.
        string_keeps json Same s refl (some value) _
          λ guid. found_keeps json Same s refl _ _ (λ f. refl)

  pub file_data_get-files : (req : HttpRequest) → (file_data_get json req s).0.files ≡ s.files
  unfolding file_data_get
  file_data_get-files req =
      chosen_keeps json Same s refl (lookup (codes "guid") req.url_params) _ _ refl
        λ guid. found_keeps json Same s refl _ _ (λ f. refl)

  pub project_get-files :
      (p : ProjectModel) (req : HttpRequest) → (project_get json p req s).0.files ≡ s.files
  unfolding project_get
  project_get-files p req =
      chosen_keeps json Same s refl (lookup (codes "guid") req.url_params) _ _ refl
        λ guid. found_keeps json Same s refl _ _ (λ q. refl)

  pub project_post-files :
      (p : ProjectModel) (body : J) → (project_post json p body s).0.files ≡ s.files
  unfolding project_post
  project_post-files p body =
      chosen_keeps json Same s refl (json.field body (codes "guid")) _ _ refl λ g.
        chosen_keeps json Same s refl (json.field body (codes "name")) _ _ refl λ n.
          string_keeps json Same s refl (some g) _ λ guid. found_keeps json Same s refl _ _ λ q.
            string_keeps json Same s refl (some n) _ λ name.
              string_keeps json Same s refl (json.field body (codes "project_data")) _
                (λ text. refl)

  pub project_put-files :
      (fresh : Fresh) (body : J) → (project_put json fresh body s).0.files ≡ s.files
  unfolding project_put
  project_put-files fresh body =
      chosen_keeps json Same s refl (json.field body (codes "name")) _ _ refl λ n.
        chosen_keeps json Same s refl (json.field body (codes "creator_id")) _ _ refl λ c.
          chosen_keeps json Same s refl (json.as_int c) _ _ refl λ creator_id.
            data_keeps json Same s refl (json.field body (codes "project_data")) _ λ data_text.
              string_keeps json Same s refl (some n) _
                λ name. found_keeps json Same _ refl _ _ (λ q. refl)

file_create-files :
    (fresh : Fresh) (now : ℕ) (files : List FileRow) (f : FileModel)
    → Extends files (file_create fresh now (files, f)).0.0
unfolding file_create
file_create-files fresh now files f =
    added (first (λ r. r.id == fresh.id) (files ++ file_row fresh now f ∷ []))
  where
    added :
        (o : Option FileRow)
        → let made : Exit (List FileRow × FileModel) = elim o [
          | none ↦
              fails_with "Failed to confirm file insert" (files ++ file_row fresh now f ∷ [], f)
          | some r ↦
              ((files ++ file_row fresh now f ∷ [], record f { id = r.id; guid = r.guid }), none)
        ] in
          Extends files made.0.0
    added none = (file_row fresh now f ∷ [], refl)
    added (some r) = (file_row fresh now f ∷ [], refl)

module _ {J : Type 0} (json : Json J) (transcode : Bytes → Option (Bytes × ℕ)) where
  pub file_post-Extends :
      (fresh : Fresh) (now : ℕ) (req : HttpRequest) (s : Site J)
      → Extends s.files (file_post json transcode fresh now req s).0.files
  unfolding file_post
  file_post-Extends fresh now req s =
      chosen_keeps json P s same (lookup (codes "name") req.url_params) _ _ same
        λ name. of_files name req.files
    where
      P : Site J → Type 0
      P x = Extends s.files x.files

      same : P s
      same = Extends-refl s.files

      of_files :
          (name : Bytes) (files : List Bytes)
          → let posted : Exit (Site J) = elim files [
            | [] ↦ bad_request json "Must send at least one file to use this endpoint" s
            | file ∷ more ↦ elim (transcode file) [
              | none ↦ (s, some unknown)
              | some (output, rate) ↦
                  store_upload json fresh now (uploaded json output rate name s.user.id) s
            ]
          ] in
            P posted.0
      of_files name [] = same
      of_files name (file ∷ more) =
          chosen_keeps json P s same (transcode file) _ _ same
            λ made. file_create-files fresh now s.files (uploaded json made.0 made.1 name s.user.id)
