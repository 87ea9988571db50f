-- ===== src/Http/Process/Replies.antt =====
-- A request gets a reply when what is thrown and what is answered are texts that the JSON library
-- writes.
use audio_tool_api.Prelude.{
  ℕ, ◌≡◌, refl, [], codes, Bool, true, false, Option, none, some, List, ◌∷◌, ◌++◌, Bytes, inl, inr,
  Option-cases, if◌then◌else◌,
}
use audio_tool_api.Request.{HttpRequest, http_request}
use audio_tool_api.Http.Response.{HttpResponse, Dumped, text, fails, get_content}
use audio_tool_api.Http.Process.{
  Method, head, options, get, post, put, delete_, other, Incoming, Thrown, http_exception,
  runtime_error, std_exception, unknown, HandlerName, find_route, Exit, Handler, Reply, Processed,
  Served, replies, server_field, build_message, build_response, catch_clauses, attempt, finished,
  dispatch, run_handler, refreshed, filled, authorize, process, uncaught, please_wait, unhandled,
  reply_with,
}
use audio_tool_api.Http.Process.Utf8.{
  Utf8, append-Utf8, ascii-Utf8, please_wait-Utf8, unhandled-Utf8,
}
use audio_tool_api.Http.Process.Answers.{is_caught, Written, DumpsUtf8, ThrownUtf8, Fine, Answers}

-- A reply that closes the connection and names the server.
abbrev pub IsReply : Processed → Type 0
IsReply p =
    (r : Reply) × (p ≡ replies r)
    × (r.keep_alive ≡ false)
    × ((rest : List (Bytes × Bytes)) × (r.fields ≡ server_field ∷ rest))

module _ {S : Type 0} where
  IsReply-if :
      (b : Bool) (p q : Served S) → IsReply p.0 → IsReply q.0 → IsReply (if b then p else q).0
  IsReply-if true p q hp hq = hp
  IsReply-if false p q hp hq = hq

  IsReply-option :
      (o : Option Bytes) (p : Served S) (f : Bytes → Served S)
      → IsReply p.0
      → ((t : Bytes) → IsReply (f t).0)
      → let chosen : Served S = elim o [ none ↦ p | some t ↦ f t ] in IsReply chosen.0
  IsReply-option none p f hp hf = hp
  IsReply-option (some t) p f hp hf = hf t

module _ {J : Type 0} (dump : J → Dumped) (message_json : Bytes → ℕ → J) (int_to_status : ℕ → ℕ)
    (law : DumpsUtf8 dump message_json) where
  build_message-IsReply :
      (status : ℕ) (body : Bytes) (caught : Bytes → Processed)
      → Utf8 body
      → IsReply (build_message dump message_json int_to_status status body caught)
  build_message-IsReply status body caught u =
      rw (law.writes body status u).1 (_, refl, refl, (_, refl))

  catch_clauses-IsReply :
      (thrown : Thrown)
      → ThrownUtf8 thrown
      → IsReply (catch_clauses dump message_json int_to_status thrown)
  unfolding catch_clauses
  catch_clauses-IsReply (http_exception code what) u =
      build_message-IsReply (int_to_status code) what uncaught u
  catch_clauses-IsReply (runtime_error what) u =
      build_message-IsReply 500 (please_wait ++ what) uncaught (append-Utf8 please_wait-Utf8 u)
  catch_clauses-IsReply (std_exception what) u =
      build_message-IsReply 500 (please_wait ++ what) uncaught (append-Utf8 please_wait-Utf8 u)
  catch_clauses-IsReply unknown u = build_message-IsReply 500 unhandled uncaught unhandled-Utf8

  -- A message that is not written is caught, and then its exception's text is written.
  caught_message-IsReply :
      (status : ℕ) (body : Bytes)
      → IsReply (
          build_message dump message_json int_to_status status body
            (λ what. catch_clauses dump message_json int_to_status (std_exception what)))
  caught_message-IsReply status body =
      either (dump (message_json body status)) (λ what e. law.fails_in_utf8 _ what e)
    where
      either :
          (d : Dumped)
          → ((what : Bytes) → d ≡ fails what → Utf8 what)
          → IsReply (
              reply_with status
                (server_field ∷ (codes "Content-Type", codes "application/json") ∷ [])
                d
                (λ what. catch_clauses dump message_json int_to_status (std_exception what)))
      either (text t) f = (_, refl, refl, (_, refl))
      either (fails what) f = catch_clauses-IsReply (std_exception what) (f what refl)

  build_response-IsReply :
      (r : HttpResponse J)
      → Written (get_content dump r)
      → IsReply (build_response dump message_json int_to_status r)
  build_response-IsReply r w = rw w.1 (_, refl, refl, (_, refl))

  module _ {S : Type 0} where
    attempt-IsReply :
        (Valid : S → Type 0) (e : Exit S) (more : S → Served S)
        → Fine Valid e
        → ((s : S) → Valid s → IsReply (more s).0)
        → IsReply (attempt dump message_json int_to_status e more).0
    attempt-IsReply Valid (s, none) more v h = h s v
    attempt-IsReply Valid (s, some thrown) more v h = catch_clauses-IsReply thrown v.1

    module _ (Valid : S → Type 0) (h : Handler S J) (req : Incoming) (req_data : HttpRequest)
        (answers : Answers dump Valid h req_data) where
      finished-IsReply :
          (s : S) → Valid s → IsReply (finished dump message_json int_to_status h req req_data s).0
      finished-IsReply s v =
          attempt-IsReply _ (h.finish req_data s) _ (answers.finishes s v)
            (λ s'. build_response-IsReply (h.response s'))

      then_finished :
          (e : Exit S)
          → Fine Valid e
          → IsReply
              (attempt dump message_json int_to_status e
                (finished dump message_json int_to_status h req req_data)).0
      then_finished e v = attempt-IsReply Valid e _ v finished-IsReply

      dispatch-IsReply :
          (m : Method) (s : S)
          → Valid s
          → IsReply (dispatch dump message_json int_to_status h req req_data m s).0
      unfolding dispatch
      dispatch-IsReply head s v = then_finished _ (answers.heads s v)
      dispatch-IsReply options s v = then_finished _ (answers.tells_options s v)
      dispatch-IsReply get s v = then_finished _ (answers.gets s v)
      dispatch-IsReply post s v = then_finished _ (answers.posts s v)
      dispatch-IsReply put s v = then_finished _ (answers.puts s v)
      dispatch-IsReply delete_ s v = then_finished _ (answers.deletes s v)
      dispatch-IsReply other s v = caught_message-IsReply 400 _

      run_handler-IsReply :
          (s : S)
          → Valid s
          → IsReply (run_handler dump message_json int_to_status h req req_data s).0
      unfolding run_handler
      run_handler-IsReply s v =
          attempt-IsReply Valid (h.setup req_data s) _ (answers.sets_up s v)
            (dispatch-IsReply req.method)

      refreshed-IsReply :
          (e : Exit S)
          → Fine Valid e
          → is_caught e ≡ true
          → IsReply (refreshed dump message_json int_to_status h req req_data e).0
      refreshed-IsReply (s, none) v c = run_handler-IsReply s v
      refreshed-IsReply (s, some (http_exception code what)) v c = run_handler-IsReply s v.0
      refreshed-IsReply (s, some (runtime_error what)) v c = run_handler-IsReply s v.0
      refreshed-IsReply (s, some (std_exception what)) v c = absurd (cc)
      refreshed-IsReply (s, some unknown) v c = absurd (cc)

      unauthorized-IsReply :
          (what : Bytes)
          → Utf8 what
          → IsReply (
              build_message dump message_json int_to_status 401
                (codes "Unauthorized: " ++ what)
                uncaught)
      unauthorized-IsReply what u =
          build_message-IsReply 401 _ uncaught
            (append-Utf8 (ascii-Utf8 (codes "Unauthorized: ") refl) u)

      filled-IsReply :
          (e : Exit S)
          → Fine Valid e
          → is_caught e ≡ true
          → IsReply (filled dump message_json int_to_status h req req_data e).0
      filled-IsReply (s, none) v c =
          refreshed-IsReply (h.refresh_session s) (answers.refreshes s v)
            (answers.refresh_caught s v)
      filled-IsReply (s, some (http_exception code what)) v c = unauthorized-IsReply what v.1
      filled-IsReply (s, some (runtime_error what)) v c = unauthorized-IsReply what v.1
      filled-IsReply (s, some (std_exception what)) v c = absurd (cc)
      filled-IsReply (s, some unknown) v c = absurd (cc)

      authorize-IsReply :
          (s : S) → Valid s → IsReply (authorize dump message_json int_to_status h req req_data s).0
      unfolding authorize
      authorize-IsReply s v =
          IsReply-if h.requires_authentication _ _
            (IsReply-option req.session_token _ _
              (build_message-IsReply 401 _ uncaught (ascii-Utf8 (codes "Unauthorized") refl))
              (λ token.
                filled-IsReply (h.fill_by_token token s) (answers.finds token s v)
                  (answers.find_caught token s v)))
            (run_handler-IsReply s v)

    -- If the JSON library writes every message whose text is UTF-8 and fails with texts that are
    -- UTF-8, and for this request every handler is constructed in a valid state, keeps it valid in
    -- every operation, throws only texts that are UTF-8 there, looks up the user and refreshes the
    -- session throwing nothing but runtime errors, and leaves a response that the library writes,
    -- then the request is replied to, whatever else the operations throw; and the reply names the
    -- server and closes the connection.
    pub process-IsReply :
        (Valid : S → Type 0) (prefix : Bytes) (handlers : HandlerName → Handler S J)
        (construct : HandlerName → Option S) (memory : Bytes) (req : Incoming)
        → ((name : HandlerName) → (s : S) × (construct name ≡ some s) × Valid s)
        → ((name : HandlerName)
            → Answers dump Valid (handlers name) (http_request memory req.request))
        → IsReply (process dump message_json int_to_status prefix handlers construct memory req).0
    unfolding process
    process-IsReply Valid prefix handlers construct memory req c answers =
        let parsed : HttpRequest = http_request memory req.request in
        elim (Option-cases (find_route prefix parsed.path)) [
          | inl e ↦
              rw (e, process)
                (build_message-IsReply (int_to_status 404) _ uncaught
                  (ascii-Utf8 (codes "Route not found") refl))
          | inr (name, e) ↦
              let (s, k, v) = c name in
              rw (e, k, process)
                (authorize-IsReply Valid (handlers name) req parsed (answers name) s v)
        ]
