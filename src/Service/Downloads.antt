-- ===== src/Service/Downloads.antt =====
-- From the request of an upload to the reply of a download.
use audio_tool_api.Prelude.{
  subst, ℕ, ◌≡◌, refl, sym, ap, ◌∙◌, Bool, ◌&&◌, if◌then◌else◌, ltb, length, true, false, Option,
  none, some, List, ◌∷◌, Bytes, bytes_eq, codes, ◌==◌,
}
use audio_tool_api.Prelude.Dict.{lookup, find_bytes}
use audio_tool_api.Request.{HttpRequest, http_request}
use audio_tool_api.Http.Response.{set_text}
use audio_tool_api.Http.Process.{
  get, post, Incoming, file_handler, file_data_handler, find_route, Exit, Processed, replies,
  server_field, with_state,
}
use audio_tool_api.Models.{Store, User, first, fill_by_token, session_refresh}
use audio_tool_api.Content.{FileRow, FileModel, file_create, file_by_guid}
use audio_tool_api.Content.Files.{file_create-file_by_guid, file_by_guid-append}
use audio_tool_api.Handlers.{
  file_data_get, store_upload, uploaded, no_file, found_or_thrown, send_data,
}
use audio_tool_api.Handlers.Base.{base_response}
use audio_tool_api.Handlers.Uploads.{post_stores}
use audio_tool_api.Service.Growth.Turns.{serve_all-Grown}
use audio_tool_api.Service.{
  Turn, at_time, serve_all, Tables, Page, World, handlers, page, serve, parse_json, site, from_site,
  tables_left,
}
use audio_tool_api.Service.Entry.{entered, serve-ran, run_handler-get, run_handler-post}

not_parsed {ℓ} :
    {A : Type ℓ} (b : Bool) (o : Option ℕ) (x y : A)
    → o ≡ none
    → (if b && elim o [ none ↦ false | some _ ↦ true ] then x else y) ≡ y
not_parsed true o x y e = rw e refl
not_parsed false o x y e = refl

-- What a request says, as `http_request` reads it.
abbrev pub told : {J : Type 0} → World J → Incoming → HttpRequest
told w req = http_request w.memory req.request

module _ {J : Type 0} (w : World J) where
  -- A post to `/file` of a user who is logged in, with a name and a file that the audio processor
  -- accepts, and with a content type that does not hold `json`: in one that does, as in a boundary
  -- with these letters, `setup` parses the body.
  pub record IsUpload (req : Incoming) (t : Tables) (u : User) (output : Bytes) : Type 0 where
    pub token : Bytes
    pub name : Bytes
    pub file : Bytes
    pub more : List Bytes
    pub rate : ℕ
    pub routed : find_route w.prefix (told w req).path ≡ some file_handler
    pub posts : req.method ≡ post
    pub has_token : req.session_token ≡ some token
    pub finds_user : fill_by_token t.store token w.user ≡ (u, none)
    pub not_json : find_bytes (codes "json") (told w req).content_type ≡ none
    pub has_name : lookup (codes "name") (told w req).url_params ≡ some name
    pub has_file : (told w req).files ≡ file ∷ more
    pub accepted : w.transcode file ≡ some (output, rate)

  -- A request for the data of the file with that guid, of a user who is logged in.
  pub record IsDownload (req : Incoming) (store : Store) (guid : Bytes) : Type 0 where
    pub token : Bytes
    pub user : User
    pub routed : find_route w.prefix (told w req).path ≡ some file_data_handler
    pub gets : req.method ≡ get
    pub has_token : req.session_token ≡ some token
    pub finds_user : fill_by_token store token w.user ≡ (user, none)
    pub has_guid : lookup (codes "guid") (told w req).url_params ≡ some guid

  -- The reply that carries the octets.
  abbrev pub octets : Bytes → Processed
  octets body = replies (record {
    status = 200;
    fields =
        server_field
        ∷ (codes "Content-Type", codes "application/octet")
        ∷ (base_response w.null).headers;
    keep_alive = false;
    body = body;
  })

  -- The reply of a handler that finished, and the tables that it leaves.
  serve-file_data :
      (req : Incoming) (t : Tables) (guid : Bytes) (m : FileModel)
      → IsDownload req t.store guid
      → file_by_guid t.files guid true (no_file w.library) ≡ (m, none)
      → (serve w req t).0 ≡ octets m.contents
  unfolding file_data_get
  serve-file_data req t guid m d e =
      let p : Page J = entered w (page w req t file_data_handler) d.user in
      let sent : Page J = record p {
        response = record (set_text m.contents p.response) {
          content_type = codes "application/octet";
        };
      } in
      let answered : file_data_get w.library (told w req) (site p) ≡ (site sent, none) =
        rw (d.has_guid, file_data_get)
          (ap (λ x. found_or_thrown w.library (site p) x (λ f. send_data w.library f (site p)))
            e) in
      ap (λ x. x.0)
        (serve-ran w file_data_handler req t d.user d.token d.routed refl refl refl d.has_token
          d.finds_user)
      ∙ ap (λ x. x.0)
          (run_handler-get w.dump w.message_json w.int_to_status (handlers w file_data_handler) req
            (told w req) p p sent refl d.gets (ap (from_site p) answered))

  serve-file :
      (req : Incoming) (t : Tables) (u : User) (output : Bytes) (h : IsUpload req t u output)
      → (serve w req t).1.files
        ≡ (file_create w.fresh t.store.now
            (t.files, uploaded w.library output h.rate h.name u.id)).0.0
  unfolding parse_json session_refresh
  serve-file req t u output h =
      let p : Page J = entered w (page w req t file_handler) u in
      let ready : parse_json w (told w req) p ≡ (p, none) =
        not_parsed (ltb 0 (length req.request.body))
          (find_bytes (codes "json") (told w req).content_type) _ _ h.not_json in
      let stored =
        post_stores w.library w.transcode w.fresh t.store.now (told w req) (site p) h.name h.file
          output h.more h.rate h.has_name h.has_file h.accepted in
      ap (λ x. x.1.files)
        (serve-ran w file_handler req t u h.token h.routed refl refl refl h.has_token h.finds_user)
      ∙ ap (λ x. (tables_left t (with_state x)).1.files)
          (run_handler-post w.dump w.message_json w.int_to_status (handlers w file_handler) req
            (told w req) p p
            (from_site p (
              store_upload w.library w.fresh t.store.now
                (uploaded w.library output h.rate h.name u.id) (site p))).0
            ready h.posts (ap (from_site p) stored))

-- If a user who is logged in posts a file to `/file` with a name and a content type that does not
-- hold `json`, the audio processor accepts the file, and the server gives it a new number and a new
-- guid, then after any further requests, of anyone, to any route, at any times and whatever the
-- other programs answer to them, a request of a user who is logged in then, to `/file_data` with
-- that guid, is replied to with the status 200 and the processed bytes as octets.
pub serve_upload-download :
    {J : Type 0} (w w' : World J) (up down : Incoming) (t : Tables) (u : User) (output : Bytes)
    (turns : List (Turn J)) (now : ℕ)
    → IsUpload w up t u output
    → first (λ r. r.id == w.fresh.id) t.files ≡ none
    → first (λ r. bytes_eq r.guid w.fresh.guid) t.files ≡ none
    → IsDownload w' down (at_time now (serve_all turns (serve w up t).1)).store w.fresh.guid
    → (serve w' down (at_time now (serve_all turns (serve w up t).1))).0 ≡ octets w' output
serve_upload-download w w' up down t u output turns now h i g d =
    let upload : FileModel = uploaded w.library output h.rate h.name u.id in
    let created =
      file_create-file_by_guid w.fresh t.store.now t.files upload (no_file w'.library) i g in
    let posted : Tables = (serve w up t).1 in
    let found : Exit FileModel → List FileRow → Type 0 =
      λ x files. file_by_guid files w.fresh.guid true (no_file w'.library) ≡ x in
    let stored = subst (found _) (sym (serve-file w up t u output h)) created.1 in
    let (more, grown) = (serve_all-Grown turns posted).0 in
    serve-file_data w' down (at_time now (serve_all turns posted)) w.fresh.guid _ d (
      subst (found _) (sym grown)
        (file_by_guid-append posted.files more w.fresh.guid true (no_file w'.library) _ stored))
