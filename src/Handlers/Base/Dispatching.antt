-- ===== src/Handlers/Base/Dispatching.antt =====
-- From a request to the reply of the base class.
use audio_tool_api.Prelude.{
  ℕ, ◌≡◌, ◌≢◌, refl, ap, ◌∙◌, false, Option, none, some, ◌∷◌, Bytes, codes, arith,
}
use audio_tool_api.Request.{HttpRequest, http_request}
use audio_tool_api.Http.Response.{HttpResponse, Dumped}
use audio_tool_api.Http.Process.{
  Method, head, options, get, post, put, delete_, other, Incoming, HandlerName, base_handler,
  find_route, Exit, Handler, Processed, replies, server_field, dispatch, run_handler, filled,
  authorize, process,
}
use audio_tool_api.Models.{User, fill_by_token}
use audio_tool_api.Handlers.Login.{Login}
use audio_tool_api.Handlers.Base.{base_methods, not_found_response, user_filled}

-- What a method that is not overridden is answered with.
abbrev pub not_found_reply : {J : Type 0} → HttpResponse J → Processed
not_found_reply r = replies (record {
  status = 404;
  fields = server_field ∷ (codes "Content-Type", r.content_type) ∷ r.headers;
  keep_alive = false;
  body = not_found_response;
})

module _ {J : Type 0} (dump : J → Dumped) (message_json : Bytes → ℕ → J)
    (int_to_status : ℕ → ℕ) where
  dispatch-not_found :
      (req : Incoming) (req_data : HttpRequest) (m : Method) (s : Login J)
      → m ≢ other
      → (dispatch dump message_json int_to_status base_methods req req_data m s).0
        ≡ not_found_reply s.response
  unfolding dispatch
  dispatch-not_found req req_data head s k = refl
  dispatch-not_found req req_data options s k = refl
  dispatch-not_found req req_data get s k = refl
  dispatch-not_found req req_data post s k = refl
  dispatch-not_found req req_data put s k = refl
  dispatch-not_found req req_data delete_ s k = refl
  dispatch-not_found req req_data other s k = absurd (k refl)

  filled-not_found :
      (req : Incoming) (req_data : HttpRequest) (x : Exit User) (s : Login J)
      → x.1 ≡ none
      → req.method ≢ other
      → (filled dump message_json int_to_status base_methods req req_data (user_filled x s)).0
        ≡ not_found_reply s.response
  unfolding run_handler
  filled-not_found req req_data (user, none) s e k = dispatch-not_found req req_data req.method _ k
  filled-not_found req req_data (user, some thrown) s e k = ground (arith, e)

  -- For a request that is routed to the base class, with a token that finds a user, and with any
  -- method that the service knows, the reply has the status 404, says that the route was not found,
  -- and carries the response's headers.
  pub process-not_found :
      (prefix : Bytes) (handlers : HandlerName → Handler (Login J) J)
      (construct : HandlerName → Option (Login J)) (memory token : Bytes) (req : Incoming)
      (s : Login J)
      → find_route prefix (http_request memory req.request).path ≡ some base_handler
      → handlers base_handler ≡ base_methods
      → construct base_handler ≡ some s
      → req.session_token ≡ some token
      → (fill_by_token s.db token s.user).1 ≡ none
      → req.method ≢ other
      → (process dump message_json int_to_status prefix handlers construct memory req).0
        ≡ not_found_reply s.response
  unfolding process authorize
  process-not_found prefix handlers construct memory token req s r h c t f k =
      let parsed : HttpRequest = http_request memory req.request in
      rw (r, c, process)
        (ap (λ methods. (authorize dump message_json int_to_status methods req parsed s).0) h
          ∙ rw (t, authorize) (filled-not_found req parsed (fill_by_token s.db token s.user) s f k))
