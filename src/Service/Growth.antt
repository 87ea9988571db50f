-- ===== src/Service/Growth.antt =====
-- What no request does to the tables: how a method, and a handler, may change them. `Turns` goes
-- through the handlers and the requests.
pub mod Turns
use audio_tool_api.Prelude.{
  ◌≡◌, refl, sym, subst, Bool, true, false, ◌&&◌, Option, none, some, List, [], ◌∷◌, ltb, length,
  codes, if◌then◌else◌, Option-cases, inl, inr,
}
use audio_tool_api.Prelude.Dict.{find_bytes}
use audio_tool_api.Request.{HttpRequest, http_request}
use audio_tool_api.Http.Process.{
  Incoming, std_exception, HandlerName, base_handler, test_handler, auth_handler, user_handler,
  file_handler, file_data_handler, file_list_handler, project_handler, project_list_handler,
  find_route, Exit, process,
}
use audio_tool_api.Http.Process.Frame.{Keeps, authorize_keeps}
use audio_tool_api.Models.{session_refresh}
use audio_tool_api.Handlers.{
  Site, file_get, project_post, project_put, file_data_get, project_get, user_get, file_list_get,
  project_list_get,
}
use audio_tool_api.Handlers.Keeping.{
  Extends, Extends-refl, Extends-trans, file_get-files, file_post-Extends, file_data_get-files,
  project_get-files, project_post-files, project_put-files,
}
use audio_tool_api.Handlers.Login.Keeping.{auth_get-users, auth_post-users, auth_put-Extends}
use audio_tool_api.Handlers.Login.{Login, auth_get, auth_post, auth_put}
use audio_tool_api.Handlers.Base.{base_methods}
use audio_tool_api.Service.{
  Turn, at_time, serve_all, Tables, Page, World, base_page, model_page, test_get, handlers, page,
  serve, parse_json, with_json, site, login, from_login, on_site, on_login,
}

-- Both tables got rows at their ends, or stayed.
abbrev pub Grown : Tables → Tables → Type 0
Grown t t' = Extends t.files t'.files × Extends t.store.users t'.store.users

pub Grown-refl : (t : Tables) → Grown t t
Grown-refl t = (Extends-refl t.files, Extends-refl t.store.users)

pub Grown-trans : (t t' t'' : Tables) → Grown t t' → Grown t' t'' → Grown t t''
Grown-trans t t' t'' (f, u) (f', u') = (
  Extends-trans t.files t'.files t''.files f f',
  Extends-trans t.store.users t'.store.users t''.store.users u u',
)

pub same_Extends : {A : Type 0} (xs ys : List A) → ys ≡ xs → Extends xs ys
same_Extends xs ys e = subst (Extends xs) (sym e) (Extends-refl xs)

module _ {J : Type 0} (w : World J) (t : Tables) where
  abbrev pub Kept : Page J → Type 0
  Kept p = Grown t p.tables

  -- A method that grows the tables of its page.
  abbrev pub Grows : (HttpRequest → Page J → Exit (Page J)) → Type 0
  Grows method = (req : HttpRequest) (p : Page J) → Grown p.tables (method req p).0.tables

  keeps :
      (method : HttpRequest → Page J → Exit (Page J))
      → Grows method
      → (req : HttpRequest) (p : Page J) → Kept p
      → Kept (method req p).0
  keeps method g req p k = Grown-trans t p.tables (method req p).0.tables k (g req p)

  pub parse_json-tables :
      (req : HttpRequest) (p : Page J) → (parse_json w req p).0.tables ≡ p.tables
  unfolding parse_json
  parse_json-tables req p =
      chosen
        (ltb 0 (length p.request.body)
          && elim (find_bytes (codes "json") req.content_type) [ none ↦ false | some _ ↦ true ])
        _ (of_value (w.parse p.request.body))
    where
      chosen :
          (b : Bool) (x : Exit (Page J))
          → x.0.tables ≡ p.tables
          → let e : Exit (Page J) = if b then x else (p, none) in e.0.tables ≡ p.tables
      chosen true x e = e
      chosen false x e = refl

      of_value :
          (o : Option J)
          → let e : Exit (Page J) = elim o [
            | none ↦ (p, some (std_exception (codes "parse_error")))
            | some value ↦ (record p { json = value }, none)
          ] in
            e.0.tables ≡ p.tables
      of_value none = refl
      of_value (some value) = refl

  pub base-Keeps :
      (b : Bool) (get post put : HttpRequest → Page J → Exit (Page J))
      → Grows get
      → Grows post
      → Grows put
      → Keeps Kept (record base_page {
        requires_authentication = b;
        on_get = get;
        on_post = post;
        on_put = put;
      })
  unfolding session_refresh
  base-Keeps b get post put g h i = record {
    fills = λ token p k. k;
    refreshes = λ p k. k;
    sets_up = λ req p k. k;
    heads = λ req p k. k;
    has_options = λ req p k. k;
    gets = keeps get g;
    posts = keeps post h;
    puts = keeps put i;
    deletes = λ req p k. k;
    finishes = λ req p k. k;
  }

  pub model-Keeps :
      (get post put : HttpRequest → Page J → Exit (Page J))
      → Grows get
      → Grows post
      → Grows put
      → Keeps Kept (record (model_page w) { on_get = get; on_post = post; on_put = put })
  unfolding session_refresh
  model-Keeps get post put g h i = record {
    fills = λ token p k. k;
    refreshes = λ p k. k;
    sets_up = λ req p k. subst (Grown t) (sym (parse_json-tables req p)) k;
    heads = λ req p k. k;
    has_options = λ req p k. k;
    gets = keeps get g;
    posts = keeps post h;
    puts = keeps put i;
    deletes = λ req p k. k;
    finishes = λ req p k. k;
  }

  -- The parts of a handler's tables that its method changes.
  pub on_files :
      (method : HttpRequest → Site J → Exit (Site J))
      → ((req : HttpRequest) (x : Site J) → (method req x).0.files ≡ x.files)
      → Grows (on_site method)
  on_files method e req p =
      (same_Extends p.tables.files _ (e req (site p)), Extends-refl p.tables.store.users)

  pub on_users :
      (method : HttpRequest → Login J → Exit (Login J))
      → ((req : HttpRequest) (x : Login J) → (method req x).0.db.users ≡ x.db.users)
      → Grows (on_login method)
  on_users method e req p =
      (Extends-refl p.tables.files, same_Extends p.tables.store.users _ (e req (login p)))

  pub with_json-Grown :
      (method : J → Login J → Exit (Login J))
      → ((value : J) (x : Login J) → Extends x.db.users (method value x).0.db.users)
      → Grows (λ req p. with_json w method (parse_json w req p))
  with_json-Grown method g req p = of_parsed (parse_json w req p) (parse_json-tables req p)
    where
      of_parsed :
          (x : Exit (Page J))
          → x.0.tables ≡ p.tables
          → Grown p.tables (with_json w method x).0.tables
      of_parsed (q, none) e =
          subst (λ x. Grown x (from_login q (method q.json (login q))).0.tables) e
            (Extends-refl q.tables.files, g q.json (login q))
      of_parsed (q, some thrown) e = subst (Grown p.tables) (sym e) (Grown-refl p.tables)
