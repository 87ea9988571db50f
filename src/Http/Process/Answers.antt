-- ===== src/Http/Process/Answers.antt =====
-- What is asked of the JSON library and of a handler's operations, for `process` of
-- audio_tool_api/http/http_worker.cpp to reply to a request.
use audio_tool_api.Prelude.{ℕ, ◌≡◌, Bool, true, false, none, some, Bytes}
use audio_tool_api.Request.{HttpRequest}
use audio_tool_api.Http.Response.{Dumped, text, fails, get_content}
use audio_tool_api.Http.Process.{
  Thrown, http_exception, runtime_error, std_exception, unknown, Exit, Handler,
}
use audio_tool_api.Http.Process.Utf8.{Utf8}

-- Nothing is thrown, or a runtime error.
abbrev pub is_caught : {S : Type 0} → Exit S → Bool
is_caught (s, none) = true
is_caught (s, some (http_exception code what)) = true
is_caught (s, some (runtime_error what)) = true
is_caught (s, some (std_exception what)) = false
is_caught (s, some unknown) = false

-- The library writes a value.
abbrev pub Written : Dumped → Type 0
Written d = (t : Bytes) × (d ≡ text t)

-- The law of the library's `dump`: a message whose text is UTF-8 is written, and the text of the
-- exception of a value that is not written is UTF-8 itself.
pub record DumpsUtf8 {J : Type 0} (dump : J → Dumped) (message_json : Bytes → ℕ → J) : Type 0 where
  pub writes : (t : Bytes) (status : ℕ) → Utf8 t → Written (dump (message_json t status))
  pub fails_in_utf8 : (j : J) (what : Bytes) → dump j ≡ fails what → Utf8 what

abbrev pub ThrownUtf8 : Thrown → Type 0
ThrownUtf8 (http_exception code what) = Utf8 what
ThrownUtf8 (runtime_error what) = Utf8 what
ThrownUtf8 (std_exception what) = Utf8 what
ThrownUtf8 unknown = Unit

-- The operation keeps `Valid`, and the text of what it throws is UTF-8.
abbrev pub Fine : {S : Type 0} → (S → Type 0) → Exit S → Type 0
Fine Valid (s, none) = Valid s
Fine Valid (s, some thrown) = Valid s × ThrownUtf8 thrown

-- A handler on the request: every operation is fine from a state that is valid, the user's lookup
-- and the session's refresh throw nothing but runtime errors, and what the response holds after
-- `finish` is written.
pub record Answers {S J : Type 0} (dump : J → Dumped) (Valid : S → Type 0) (h : Handler S J)
    (req_data : HttpRequest) : Type 0 where
  pub finds : (token : Bytes) (s : S) → Valid s → Fine Valid (h.fill_by_token token s)
  pub find_caught : (token : Bytes) (s : S) → Valid s → is_caught (h.fill_by_token token s) ≡ true
  pub refreshes : (s : S) → Valid s → Fine Valid (h.refresh_session s)
  pub refresh_caught : (s : S) → Valid s → is_caught (h.refresh_session s) ≡ true
  pub sets_up : (s : S) → Valid s → Fine Valid (h.setup req_data s)
  pub heads : (s : S) → Valid s → Fine Valid (h.on_head req_data s)
  pub tells_options : (s : S) → Valid s → Fine Valid (h.on_options req_data s)
  pub gets : (s : S) → Valid s → Fine Valid (h.on_get req_data s)
  pub posts : (s : S) → Valid s → Fine Valid (h.on_post req_data s)
  pub puts : (s : S) → Valid s → Fine Valid (h.on_put req_data s)
  pub deletes : (s : S) → Valid s → Fine Valid (h.on_delete req_data s)
  pub finishes :
      (s : S)
      → Valid s
      → Fine (λ s'. Written (get_content dump (h.response s'))) (h.finish req_data s)
