-- ===== src/Handlers/Uploads.antt =====
-- From an upload to the download of its data.
use audio_tool_api.Prelude.{
  ℕ, ◌≡◌, refl, sym, ap, subst, Option, some, none, List, ◌∷◌, Bytes, bytes_eq, codes, ◌==◌,
}
use audio_tool_api.Prelude.Dict.{lookup}
use audio_tool_api.Request.{HttpRequest}
use audio_tool_api.Http.Response.{set_text}
use audio_tool_api.Http.Process.{Exit}
use audio_tool_api.Models.{User, first}
use audio_tool_api.Content.{Fresh, FileModel}
use audio_tool_api.Content.Files.{file_create-file_by_guid}
use audio_tool_api.Handlers.{
  Json, Site, file_post, file_data_get, store_upload, uploaded, found_or_thrown, send_data, no_file,
}

module _ {J : Type 0} (json : Json J) (transcode : Bytes → Option (Bytes × ℕ)) where
  pub post_stores :
      (fresh : Fresh) (now : ℕ) (up : HttpRequest) (s : Site J) (name file output : Bytes)
      (more : List Bytes) (rate : ℕ)
      → lookup (codes "name") up.url_params ≡ some name
      → up.files ≡ file ∷ more
      → transcode file ≡ some (output, rate)
      → file_post json transcode fresh now up s
        ≡ store_upload json fresh now (uploaded json output rate name s.user.id) s
  unfolding file_post
  post_stores fresh now up s name file output more rate n f t = rw (n, f, t, file_post) refl

  -- If a file is posted with a name, the audio processor accepts it, and the server gives a new
  -- number and a new guid: the post succeeds, and a download with that guid sends the processed
  -- bytes, as octets, to any user.
  pub file_post-file_data_get :
      (fresh : Fresh) (now : ℕ) (up down : HttpRequest) (s : Site J) (anyone : User)
      (name file output : Bytes) (more : List Bytes) (rate : ℕ)
      → lookup (codes "name") up.url_params ≡ some name
      → up.files ≡ file ∷ more
      → transcode file ≡ some (output, rate)
      → lookup (codes "guid") down.url_params ≡ some fresh.guid
      → first (λ r. r.id == fresh.id) s.files ≡ none
      → first (λ r. bytes_eq r.guid fresh.guid) s.files ≡ none
      → let posted = file_post json transcode fresh now up s in
        let asks : Site J = record posted.0 { user = anyone } in
        (posted.1 ≡ none)
        × (file_data_get json down asks ≡ (
          record asks {
            response = record (set_text output s.response) {
              content_type = codes "application/octet";
            };
          },
          none,
        ))
  unfolding file_data_get
  file_post-file_data_get fresh now up down s anyone name file output more rate n f t g i u =
      let stored = post_stores fresh now up s name file output more rate n f t in
      let upload : FileModel = uploaded json output rate name s.user.id in
      let created = file_create-file_by_guid fresh now s.files upload (no_file json) i u in
      let by : Exit (Site J) → Site J = λ x. record x.0 { user = anyone } in
      let sent : Exit (Site J) → Exit (Site J) = λ x. (
        record (by x) {
          response = record (set_text output s.response) {
            content_type = codes "application/octet";
          };
        },
        none,
      ) in
      let asks : Site J = by (store_upload json fresh now upload s) in
      (
        ap (λ x. x.1) stored,
        subst (λ x. file_data_get json down (by x) ≡ sent x) (sym stored)
            (rw (g, file_data_get)
              (ap (λ e. found_or_thrown json asks e (λ m. send_data json m asks)) created.1)),
      )
