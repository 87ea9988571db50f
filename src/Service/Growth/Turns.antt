-- ===== src/Service/Growth/Turns.antt =====
-- What requests, one after another, do not do to the tables.
use audio_tool_api.Prelude.{◌≡◌, refl, true, false, List, [], ◌∷◌, Option-cases, inl, inr}
use audio_tool_api.Request.{HttpRequest, http_request}
use audio_tool_api.Http.Process.{
  Incoming, HandlerName, base_handler, test_handler, auth_handler, user_handler, file_handler,
  file_data_handler, file_list_handler, project_handler, project_list_handler, find_route, process,
}
use audio_tool_api.Http.Process.Frame.{Keeps, authorize_keeps}
use audio_tool_api.Handlers.{
  Site, file_get, project_post, project_put, file_data_get, project_get, user_get, file_list_get,
  project_list_get,
}
use audio_tool_api.Handlers.Keeping.{
  Extends-refl, file_get-files, file_post-Extends, file_data_get-files, project_get-files,
  project_post-files, project_put-files,
}
use audio_tool_api.Handlers.Login.Keeping.{auth_get-users, auth_post-users, auth_put-Extends}
use audio_tool_api.Handlers.Login.{auth_get, auth_post, auth_put}
use audio_tool_api.Handlers.Base.{base_methods}
use audio_tool_api.Service.{
  Turn, at_time, serve_all, Tables, World, test_get, handlers, page, serve, site, on_login,
}
use audio_tool_api.Service.Growth.{
  Grown, Grown-refl, Grown-trans, same_Extends, Kept, Grows, base-Keeps, model-Keeps, on_files,
  on_users, with_json-Grown,
}

module _ {J : Type 0} (w : World J) (t : Tables) where
  user_get-files : (req : HttpRequest) (x : Site J) → (user_get w.library x).0.files ≡ x.files
  unfolding user_get
  user_get-files req x = refl

  file_list_get-files :
      (req : HttpRequest) (x : Site J) → (file_list_get w.library x).0.files ≡ x.files
  unfolding file_list_get
  file_list_get-files req x = refl

  project_list_get-files :
      (req : HttpRequest) (x : Site J) → (project_list_get w.library x).0.files ≡ x.files
  unfolding project_list_get
  project_list_get-files req x = refl

  unchanged : Grows w t (on_login (base_methods {J = J}).on_get)
  unchanged req p = Grown-refl p.tables

  handlers-Keeps : (name : HandlerName) → Keeps (Kept w t) (handlers w name)
  handlers-Keeps base_handler = base-Keeps w t true _ _ _ unchanged unchanged unchanged
  handlers-Keeps test_handler =
      base-Keeps w t false _ _ _ (on_users w t (test_get w) (λ req x. refl)) unchanged unchanged
  handlers-Keeps auth_handler =
      base-Keeps w t false _ _ _
        (on_users w t (auth_get w.library w.web w.new_token)
          (auth_get-users w.library w.web w.new_token))
        (with_json-Grown w t (auth_post w.library w.pbkdf2 w.arrays w.token w.new_token) (λ value x.
          same_Extends x.db.users _
            (auth_post-users w.library w.pbkdf2 w.arrays w.token w.new_token x value)))
        (with_json-Grown w t
          (auth_put w.library w.pbkdf2 w.arrays w.token w.new_token w.new_id w.salt)
          (λ value x.
            auth_put-Extends w.library w.pbkdf2 w.arrays w.token w.new_token x w.new_id w.salt
              value))
  handlers-Keeps user_handler =
      model-Keeps w t _ _ _ (on_files w t (λ req. user_get w.library) user_get-files) unchanged
        unchanged
  handlers-Keeps file_handler =
      model-Keeps w t _ _ _
        (λ req p.
          on_files w t (λ r. file_get w.library p.json) (λ r x. file_get-files w.library x p.json)
            req p)
        (λ req p. (
          file_post-Extends w.library w.transcode w.fresh p.tables.store.now req (site p),
          Extends-refl p.tables.store.users,
        ))
        unchanged
  handlers-Keeps file_data_handler =
      base-Keeps w t true _ _ _
        (on_files w t (file_data_get w.library) (λ req x. file_data_get-files w.library x req))
        unchanged unchanged
  handlers-Keeps file_list_handler =
      model-Keeps w t _ _ _ (on_files w t (λ req. file_list_get w.library) file_list_get-files)
        unchanged unchanged
  handlers-Keeps project_handler =
      model-Keeps w t _ _ _
        (on_files w t (project_get w.library w.project)
          (λ req x. project_get-files w.library x w.project req))
        (λ req p.
          on_files w t (λ r. project_post w.library w.project p.json)
            (λ r x. project_post-files w.library x w.project p.json) req p)
        (λ req p.
          on_files w t (λ r. project_put w.library w.fresh p.json)
            (λ r x. project_put-files w.library x w.fresh p.json) req p)
  handlers-Keeps project_list_handler =
      model-Keeps w t _ _ _
        (on_files w t (λ req. project_list_get w.library) project_list_get-files) unchanged
        unchanged

  -- Whatever is requested, with whatever token, method, parameters and body, and whatever the
  -- libraries and the other programs answer: the files and the users that were there stay as they
  -- were, and what is new stands behind them.
  pub serve-Grown : (req : Incoming) → Grown t (serve w req t).1
  unfolding serve process
  serve-Grown req =
      let parsed_request : HttpRequest = http_request w.memory req.request in
      elim (Option-cases (find_route w.prefix parsed_request.path)) [
        | inl e ↦ rw (e, process) (Grown-refl t)
        | inr (name, e) ↦
            rw (e, process)
              (authorize_keeps (Kept w t) w.dump w.message_json w.int_to_status (handlers w name)
                (handlers-Keeps name) req parsed_request (page w req t name) (Grown-refl t))
      ]

module _ {J : Type 0} where
  -- After any requests, one after another, at any times, with whatever tokens, methods, parameters
  -- and bodies, and whatever the libraries and the other programs answer: the files and the users
  -- that were there stay as they were, and what is new stands behind them.
  pub serve_all-Grown : (turns : List (Turn J)) (t : Tables) → Grown t (serve_all turns t)
  unfolding serve_all
  serve_all-Grown [] t = Grown-refl t
  serve_all-Grown (turn ∷ turns) t =
      let served : Tables = (serve turn.world turn.request (at_time turn.now t)).1 in
      Grown-trans t served (serve_all turns served)
        (serve-Grown turn.world (at_time turn.now t) turn.request) (serve_all-Grown turns served)
