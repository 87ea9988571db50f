-- ===== src/Service.antt =====
-- The whole of the service between a request and the tables: the handlers of
-- audio_tool_api/http/routes.h, each on the page that its request is served with, through
-- `http_worker::process`. A page is what the handler's object holds, with the tables behind its
-- database connection and the request that `setup` and `post` parse.

pub mod Entry
pub mod Downloads
pub mod Logins
pub mod Growth
pub mod Strangers
use audio_tool_api.Prelude.{
  ℕ, Bool, true, false, Option, none, some, List, [], ◌∷◌, ◌&&◌, ltb, if◌then◌else◌, length, Bytes,
  codes,
}
use audio_tool_api.Prelude.Dict.{find_bytes}
use audio_tool_api.Base64.{base64_encode}
use audio_tool_api.Request.{BeastRequest, HttpRequest, content_type_of}
use audio_tool_api.Http.Response.{HttpResponse, Dumped, set_json}
use audio_tool_api.Http.Process.{
  Incoming, std_exception, HandlerName, base_handler, test_handler, auth_handler, user_handler,
  file_handler, file_data_handler, file_list_handler, project_handler, project_list_handler, Exit,
  Handler, Processed, Served, process,
}
use audio_tool_api.Models.{Store, User, Memory}
use audio_tool_api.Content.{Fresh, FileRow, ProjectRow, ProjectModel}
use audio_tool_api.Handlers.{
  Json, Site, file_get, file_post, file_data_get, file_list_get, user_get, project_get,
  project_post, project_put, project_list_get, model_finish,
}
use audio_tool_api.Handlers.Login.{Login, Web, auth_get, auth_post, auth_put}
use audio_tool_api.Handlers.Base.{base_response, base_methods}

pub record Tables : Type 0 where
  pub store : Store
  pub files : List FileRow
  pub projects : List ProjectRow

pub record Page (J : Type 0) : Type 0 where
  pub tables : Tables
  pub user : User
  pub response : HttpResponse J
  pub response_data : J
  pub project : ProjectModel
  pub request : BeastRequest
  pub json : J

-- The libraries, the configuration and the other programs, with what the server, the clock and
-- `RAND_bytes` give to the request, and what the members hold before they are assigned.
pub record World (J : Type 0) : Type 0 where
  pub dump : J → Dumped
  pub message_json : Bytes → ℕ → J
  pub int_to_status : ℕ → ℕ
  pub prefix : Bytes
  pub library : Json J
  pub parse : Bytes → Option J
  pub null : J
  pub named : Bytes → Bytes → J
  pub web : Web J
  pub pbkdf2 : Bytes → Bytes → Option Bytes
  pub transcode : Bytes → Option (Bytes × ℕ)
  pub memory : Bytes
  pub arrays : Memory
  pub user : User
  pub project : ProjectModel
  pub model : HandlerName → J
  pub token : Bytes
  pub new_token : Bytes
  pub new_id : ℕ
  pub salt : Bytes
  pub random : Bytes
  pub fresh : Fresh

module _ {J : Type 0} where
  -- The part of a page that the methods of Handlers work on, and that of the base class and the
  -- login.
  abbrev pub site : Page J → Site J
  site p = record {
    files = p.tables.files;
    projects = p.tables.projects;
    user = p.user;
    response = p.response;
    response_data = p.response_data;
  }

  abbrev pub from_site : Page J → Exit (Site J) → Exit (Page J)
  from_site p (s, thrown) = (
    record p {
      tables = record p.tables { files = s.files; projects = s.projects };
      user = s.user;
      response = s.response;
      response_data = s.response_data;
    },
    thrown,
  )

  abbrev pub login : Page J → Login J
  login p = record { db = p.tables.store; user = p.user; response = p.response }

  abbrev pub from_login : Page J → Exit (Login J) → Exit (Page J)
  from_login p (s, thrown) = (
    record p { tables = record p.tables { store = s.db }; user = s.user; response = s.response },
    thrown,
  )

  abbrev pub on_site : (HttpRequest → Site J → Exit (Site J)) → HttpRequest → Page J → Exit (Page J)
  on_site method req p = from_site p (method req (site p))

  abbrev pub on_login :
      (HttpRequest → Login J → Exit (Login J)) → HttpRequest → Page J → Exit (Page J)
  on_login method req p = from_login p (method req (login p))

  -- A handler that overrides nothing.
  abbrev pub base_page : Handler (Page J) J
  base_page =
      let base : Handler (Login J) J = base_methods in
      record {
        requires_authentication = base.requires_authentication;
        fill_by_token = λ token p. from_login p (base.fill_by_token token (login p));
        refresh_session = λ p. from_login p (base.refresh_session (login p));
        setup = on_login base.setup;
        on_head = on_login base.on_head;
        on_options = on_login base.on_options;
        on_get = on_login base.on_get;
        on_post = on_login base.on_post;
        on_put = on_login base.on_put;
        on_delete = on_login base.on_delete;
        finish = on_login base.finish;
        response = λ p. p.response;
      }

  abbrev pub tables_left : Tables → Served (Option (Page J)) → Processed × Tables
  tables_left t (p, none) = (p, t)
  tables_left t (p, some left) = (p, left.tables)

module _ {J : Type 0} (w : World J) where
  -- `http_request::parse_json`.
  unfoldable pub parse_json : HttpRequest → Page J → Exit (Page J)
  unfolding find_bytes
  parse_json req p =
      if ltb 0 (length p.request.body)
        && elim (find_bytes (codes "json") req.content_type) [ none ↦ false | some _ ↦ true ]
      then elim (w.parse p.request.body) [
        | none ↦ (p, some (std_exception (codes "parse_error")))
        | some value ↦ (record p { json = value }, none)
      ]
      else (p, none)

  -- A method that begins with `parse_json`.
  abbrev pub with_json : (J → Login J → Exit (Login J)) → Exit (Page J) → Exit (Page J)
  with_json method (p, some thrown) = (p, some thrown)
  with_json method (p, none) = from_login p (method p.json (login p))

  -- `base_model_handler`.
  abbrev pub model_page : Handler (Page J) J
  model_page = record base_page {
    setup = parse_json;
    finish = on_site (λ req. model_finish w.library);
  }

  -- `test_handler::get`.
  abbrev pub test_get : HttpRequest → Login J → Exit (Login J)
  test_get req s = (
    record s {
      response = set_json (w.named (codes "response") (base64_encode w.random)) s.response;
    },
    none,
  )

  abbrev pub handlers : HandlerName → Handler (Page J) J
  handlers base_handler = base_page
  handlers test_handler = record base_page {
    requires_authentication = false;
    on_get = on_login test_get;
  }
  handlers auth_handler = record base_page {
    requires_authentication = false;
    on_get = on_login (auth_get w.library w.web w.new_token);
    on_post = λ req p.
        with_json (auth_post w.library w.pbkdf2 w.arrays w.token w.new_token) (parse_json req p);
    on_put = λ req p.
        with_json (auth_put w.library w.pbkdf2 w.arrays w.token w.new_token w.new_id w.salt)
          (parse_json req p);
  }
  handlers user_handler = record model_page { on_get = on_site (λ req. user_get w.library) }
  handlers file_handler = record model_page {
    on_get = λ req p. from_site p (file_get w.library p.json (site p));
    on_post = λ req p.
        from_site p (file_post w.library w.transcode w.fresh p.tables.store.now req (site p));
  }
  handlers file_data_handler = record base_page { on_get = on_site (file_data_get w.library) }
  handlers file_list_handler = record model_page {
    on_get = on_site (λ req. file_list_get w.library);
  }
  handlers project_handler = record model_page {
    on_get = on_site (project_get w.library w.project);
    on_post = λ req p. from_site p (project_post w.library w.project p.json (site p));
    on_put = λ req p. from_site p (project_put w.library w.fresh p.json (site p));
  }
  handlers project_list_handler = record model_page {
    on_get = on_site (λ req. project_list_get w.library);
  }

  -- The page when the handler's constructor has run.
  abbrev pub page : Incoming → Tables → HandlerName → Page J
  page req t name = record {
    tables = t;
    user = w.user;
    response = base_response w.null;
    response_data = w.model name;
    project = w.project;
    request = req.request;
    json = w.null;
  }

  -- A request on the tables: the reply, and the tables that are left.
  unfoldable pub serve : Incoming → Tables → Processed × Tables
  unfolding process
  serve req t = tables_left t (
      process w.dump w.message_json w.int_to_status w.prefix handlers
        (λ name. some (page req t name)) w.memory req)

abbrev pub at_time : ℕ → Tables → Tables
at_time now t = record t { store = record t.store { now = now } }

-- A request, what the others give to it, and the time at which it is served.
pub record Turn (J : Type 0) : Type 0 where
  pub world : World J
  pub request : Incoming
  pub now : ℕ

module _ {J : Type 0} where
  -- The tables that requests leave which are served one after another.
  unfoldable pub serve_all : List (Turn J) → Tables → Tables
  serve_all [] t = t
  serve_all (turn ∷ turns) t =
      serve_all turns (serve turn.world turn.request (at_time turn.now t)).1
