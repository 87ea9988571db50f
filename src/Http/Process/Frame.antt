-- ===== src/Http/Process/Frame.antt =====
-- What a handler's operations keep of its state, `process` keeps.
use audio_tool_api.Prelude.{ℕ, ◌≡◌, Bool, true, false, Option, none, some, Bytes, if◌then◌else◌}
use audio_tool_api.Request.{HttpRequest}
use audio_tool_api.Http.Response.{Dumped}
use audio_tool_api.Http.Process.Guard.{threw}
use audio_tool_api.Http.Process.{
  Method, head, options, get, post, put, delete_, other, Incoming, http_exception, runtime_error,
  std_exception, unknown, Exit, Handler, Served, attempt, finished, dispatch, run_handler,
  refreshed, filled, authorize,
}

-- There is no token, or the lookup of its user throws.
abbrev pub IsUnknown : {S J : Type 0} → Handler S J → S → Option Bytes → Type 0
IsUnknown h s none = Unit
IsUnknown h s (some token) = threw (h.fill_by_token token s) ≡ true

module _ {κ} {S J : Type 0} (P : S → Type κ) where
  -- An operation keeps the property, also when it throws.
  pub record Keeps (h : Handler S J) : Type κ where
    pub fills : (token : Bytes) (s : S) → P s → P (h.fill_by_token token s).0
    pub refreshes : (s : S) → P s → P (h.refresh_session s).0
    pub sets_up : (r : HttpRequest) (s : S) → P s → P (h.setup r s).0
    pub heads : (r : HttpRequest) (s : S) → P s → P (h.on_head r s).0
    pub has_options : (r : HttpRequest) (s : S) → P s → P (h.on_options r s).0
    pub gets : (r : HttpRequest) (s : S) → P s → P (h.on_get r s).0
    pub posts : (r : HttpRequest) (s : S) → P s → P (h.on_post r s).0
    pub puts : (r : HttpRequest) (s : S) → P s → P (h.on_put r s).0
    pub deletes : (r : HttpRequest) (s : S) → P s → P (h.on_delete r s).0
    pub finishes : (r : HttpRequest) (s : S) → P s → P (h.finish r s).0

  module _ (dump : J → Dumped) (message_json : Bytes → ℕ → J) (int_to_status : ℕ → ℕ) where
    attempt_keeps :
        (e : Exit S) (more : S → Served S)
        → P e.0
        → ((s : S) → P s → P (more s).1)
        → P (attempt dump message_json int_to_status e more).1
    attempt_keeps (s, none) more p k = k s p
    attempt_keeps (s, some thrown) more p k = p

    module _ (h : Handler S J) (k : Keeps h) (req : Incoming) (req_data : HttpRequest) where
      finished_keeps :
          (s : S) → P s → P (finished dump message_json int_to_status h req req_data s).1
      finished_keeps s p =
          attempt_keeps (h.finish req_data s) _ (k.finishes req_data s p) (λ s' p'. p')

      dispatch_keeps :
          (m : Method) (s : S)
          → P s
          → P (dispatch dump message_json int_to_status h req req_data m s).1
      unfolding dispatch
      dispatch_keeps head s p =
          attempt_keeps (h.on_head req_data s) _ (k.heads req_data s p) finished_keeps
      dispatch_keeps options s p =
          attempt_keeps (h.on_options req_data s) _ (k.has_options req_data s p) finished_keeps
      dispatch_keeps get s p =
          attempt_keeps (h.on_get req_data s) _ (k.gets req_data s p) finished_keeps
      dispatch_keeps post s p =
          attempt_keeps (h.on_post req_data s) _ (k.posts req_data s p) finished_keeps
      dispatch_keeps put s p =
          attempt_keeps (h.on_put req_data s) _ (k.puts req_data s p) finished_keeps
      dispatch_keeps delete_ s p =
          attempt_keeps (h.on_delete req_data s) _ (k.deletes req_data s p) finished_keeps
      dispatch_keeps other s p = p

      run_handler_keeps :
          (s : S) → P s → P (run_handler dump message_json int_to_status h req req_data s).1
      unfolding run_handler
      run_handler_keeps s p =
          attempt_keeps (h.setup req_data s) _ (k.sets_up req_data s p) (dispatch_keeps req.method)

      refreshed_keeps :
          (e : Exit S) → P e.0 → P (refreshed dump message_json int_to_status h req req_data e).1
      refreshed_keeps (s, none) p = run_handler_keeps s p
      refreshed_keeps (s, some (http_exception code what)) p = run_handler_keeps s p
      refreshed_keeps (s, some (runtime_error what)) p = run_handler_keeps s p
      refreshed_keeps (s, some (std_exception what)) p = p
      refreshed_keeps (s, some unknown) p = p

      filled_keeps :
          (e : Exit S) → P e.0 → P (filled dump message_json int_to_status h req req_data e).1
      filled_keeps (s, none) p = refreshed_keeps (h.refresh_session s) (k.refreshes s p)
      filled_keeps (s, some (http_exception code what)) p = p
      filled_keeps (s, some (runtime_error what)) p = p
      filled_keeps (s, some (std_exception what)) p = p
      filled_keeps (s, some unknown) p = p

      with_token_keeps :
          (o : Option Bytes) (refused : Served S) (s : S)
          → P s
          → P refused.1
          → let served : Served S = elim o [
            | none ↦ refused
            | some token ↦
                filled dump message_json int_to_status h req req_data (h.fill_by_token token s)
          ] in
            P served.1
      with_token_keeps none refused s p q = q
      with_token_keeps (some token) refused s p q =
          filled_keeps (h.fill_by_token token s) (k.fills token s p)

      either : (b : Bool) (x y : Served S) → P x.1 → P y.1 → P (if b then x else y).1
      either true x y p q = p
      either false x y p q = q

      pub authorize_keeps :
          (s : S) → P s → P (authorize dump message_json int_to_status h req req_data s).1
      unfolding authorize
      authorize_keeps s p =
          either h.requires_authentication _ _ (with_token_keeps req.session_token _ s p p)
            (run_handler_keeps s p)

    -- A request that is refused keeps what the lookup of the user keeps.
    module _ (h : Handler S J) (req : Incoming) (req_data : HttpRequest) (s : S) (p : P s)
        (fills : (token : Bytes) → P (h.fill_by_token token s).0) where
      thrown_keeps :
          (e : Exit S)
          → threw e ≡ true
          → P e.0
          → P (filled dump message_json int_to_status h req req_data e).1
      thrown_keeps (s', none) t q = absurd (cc)
      thrown_keeps (s', some (http_exception code what)) t q = q
      thrown_keeps (s', some (runtime_error what)) t q = q
      thrown_keeps (s', some (std_exception what)) t q = q
      thrown_keeps (s', some unknown) t q = q

      unknown_keeps :
          (o : Option Bytes) (refused : Served S)
          → IsUnknown h s o
          → P refused.1
          → let served : Served S = elim o [
            | none ↦ refused
            | some token ↦
                filled dump message_json int_to_status h req req_data (h.fill_by_token token s)
          ] in
            P served.1
      unknown_keeps none refused u q = q
      unknown_keeps (some token) refused u q =
          thrown_keeps (h.fill_by_token token s) u (fills token)

      guarded_keeps : (b : Bool) (x y : Served S) → b ≡ true → P x.1 → P (if b then x else y).1
      guarded_keeps true x y e q = q
      guarded_keeps false x y e q = absurd (cc)

      pub authorize-refused_keeps :
          h.requires_authentication ≡ true
          → IsUnknown h s req.session_token
          → P (authorize dump message_json int_to_status h req req_data s).1
      unfolding authorize
      authorize-refused_keeps e u =
          guarded_keeps h.requires_authentication _ _ e (unknown_keeps req.session_token _ u p)
