-- ===== src/Service/Strangers.antt =====
-- What a request without a user does to the tables.
use audio_tool_api.Service.Growth.{parse_json-tables}
use audio_tool_api.Prelude.{
  subst, sym, ◌≡◌, refl, true, false, Option, none, some, Bytes, Option-cases, inl, inr,
}
use audio_tool_api.Request.{HttpRequest, http_request}
use audio_tool_api.Http.Process.{
  Incoming, HandlerName, base_handler, test_handler, auth_handler, user_handler, file_handler,
  file_data_handler, file_list_handler, project_handler, project_list_handler, find_route, Exit,
  authorize, process,
}
use audio_tool_api.Http.Process.Guard.{threw}
use audio_tool_api.Http.Process.Frame.{Keeps, IsUnknown, authorize_keeps, authorize-refused_keeps}
use audio_tool_api.Models.{fill_by_token}
use audio_tool_api.Handlers.Login.{Login, auth_post, auth_put}
use audio_tool_api.Service.{
  Tables, Page, World, base_page, handlers, page, serve, parse_json, with_json,
}

-- The request has no token, or one that finds no user.
abbrev pub IsStranger : {J : Type 0} → World J → Tables → Option Bytes → Type 0
IsStranger w t none = Unit
IsStranger w t (some token) = threw (fill_by_token t.store token w.user) ≡ true

abbrev pub SameContent : Tables → Tables → Type 0
SameContent t t' = (t'.files ≡ t.files) × (t'.projects ≡ t.projects)

module _ {J : Type 0} (w : World J) (t : Tables) (req : Incoming)
    (stranger : IsStranger w t req.session_token) where
  abbrev Kept : Page J → Type 0
  Kept p = SameContent t p.tables

  -- A handler that lets anyone in.
  with_json_keeps :
      (method : J → Login J → Exit (Login J)) (x : Exit (Page J))
      → Kept x.0
      → Kept (with_json w method x).0
  with_json_keeps method (p, none) k = k
  with_json_keeps method (p, some thrown) k = k

  open-Keeps :
      (get post put : HttpRequest → Page J → Exit (Page J))
      → ((r : HttpRequest) (p : Page J) → Kept p → Kept (get r p).0)
      → ((r : HttpRequest) (p : Page J) → Kept p → Kept (post r p).0)
      → ((r : HttpRequest) (p : Page J) → Kept p → Kept (put r p).0)
      → Keeps Kept (record base_page {
        requires_authentication = false;
        on_get = get;
        on_post = post;
        on_put = put;
      })
  open-Keeps get post put g h i = record {
    fills = λ token p k. k;
    refreshes = λ p k. k;
    sets_up = λ r p k. k;
    heads = λ r p k. k;
    has_options = λ r p k. k;
    gets = g;
    posts = h;
    puts = i;
    deletes = λ r p k. k;
    finishes = λ r p k. k;
  }

  parses : (r : HttpRequest) (p : Page J) → Kept p → Kept (parse_json w r p).0
  parses r p k = subst (SameContent t) (sym (parse_json-tables w t r p)) k

  through : HandlerName → Page J
  through name =
      (authorize w.dump w.message_json w.int_to_status (handlers w name) req
        (http_request w.memory req.request) (page w req t name)).1

  is_unknown :
      (o : Option Bytes) (name : HandlerName)
      → IsStranger w t o
      → IsUnknown (base_page {J = J}) (page w req t name) o
  is_unknown none name s = tt
  is_unknown (some token) name s = s

  guarded :
      (name : HandlerName)
      → (handlers w name).requires_authentication ≡ true
      → IsUnknown (handlers w name) (page w req t name) req.session_token
      → ((token : Bytes) → Kept ((handlers w name).fill_by_token token (page w req t name)).0)
      → Kept (through name)
  unfolding through
  guarded name e u f =
      authorize-refused_keeps Kept w.dump w.message_json w.int_to_status (handlers w name) req
        (http_request w.memory req.request) (page w req t name) (refl, refl) f e u

  let_in : (name : HandlerName) → Keeps Kept (handlers w name) → Kept (through name)
  unfolding through
  let_in name k =
      authorize_keeps Kept w.dump w.message_json w.int_to_status (handlers w name) k req
        (http_request w.memory req.request) (page w req t name) (refl, refl)

  same : (name : HandlerName) → Kept (through name)
  same base_handler =
      guarded base_handler refl (is_unknown req.session_token base_handler stranger)
        (λ token. (refl, refl))
  same test_handler = let_in test_handler (open-Keeps _ _ _ (λ r p k. k) (λ r p k. k) (λ r p k. k))
  same auth_handler = let_in auth_handler (
      open-Keeps _ _ _ (λ r p k. k)
        (λ r p k.
          with_json_keeps (auth_post w.library w.pbkdf2 w.arrays w.token w.new_token)
            (parse_json w r p) (parses r p k))
        (λ r p k.
          with_json_keeps (auth_put w.library w.pbkdf2 w.arrays w.token w.new_token w.new_id w.salt)
            (parse_json w r p) (parses r p k)))
  same user_handler =
      guarded user_handler refl (is_unknown req.session_token user_handler stranger)
        (λ token. (refl, refl))
  same file_handler =
      guarded file_handler refl (is_unknown req.session_token file_handler stranger)
        (λ token. (refl, refl))
  same file_data_handler =
      guarded file_data_handler refl (is_unknown req.session_token file_data_handler stranger)
        (λ token. (refl, refl))
  same file_list_handler =
      guarded file_list_handler refl (is_unknown req.session_token file_list_handler stranger)
        (λ token. (refl, refl))
  same project_handler =
      guarded project_handler refl (is_unknown req.session_token project_handler stranger)
        (λ token. (refl, refl))
  same project_list_handler =
      guarded project_list_handler refl (is_unknown req.session_token project_list_handler stranger)
        (λ token. (refl, refl))

  -- A request without a token, or with one that finds no user, whatever its route, method,
  -- parameters and body: the files and the projects stay as they were.
  pub serve-SameContent : SameContent t (serve w req t).1
  unfolding serve process through
  serve-SameContent =
      elim (Option-cases (find_route w.prefix (http_request w.memory req.request).path)) [
        | inl e ↦ rw (e, process) (refl, refl)
        | inr (name, e) ↦ rw (e, process) (same name)
      ]
