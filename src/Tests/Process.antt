-- ===== src/Tests/Process.antt =====
-- A request through `process`, with handlers that count their calls.
use audio_tool_api.Prelude.{
  ℕ, ◌+◌, ◌==◌, ◌<◌, subst, if◌then◌else◌, Bool-cases, arith, ◌≡◌, refl, true, false, none, some,
  Option, [], ◌∷◌, inl, inr, Bytes, codes,
}
use audio_tool_api.Request.{HttpRequest}
use audio_tool_api.Http.Response.{HttpResponse, Dumped, text, fails}
use audio_tool_api.Http.Process.{
  post, Incoming, http_exception, runtime_error, HandlerName, auth_handler, Exit, Handler, Served,
  process,
}
use audio_tool_api.Http.Process.Utf8.{
  Utf8, no_bytes, one_byte, two_bytes, three_bytes, four_bytes, ascii-Utf8,
}
use audio_tool_api.Http.Process.Answers.{Written, DumpsUtf8, Answers}
use audio_tool_api.Http.Process.Replies.{IsReply, process-IsReply}

abbrev counted : HttpRequest → ℕ → Exit ℕ
counted r s = (s + 1, none)

abbrev found : ℕ → HttpResponse Bytes
found s = record {
  headers = (codes "Access-Control-Allow-Origin", codes "*") ∷ [];
  status = 200;
  content_type = codes "application/json";
  use_json_body = true;
  json_content = s ∷ [];
  body_content = [];
}

-- Any token is refused.
abbrev strict : Handler ℕ Bytes
strict = record {
  requires_authentication = true;
  fill_by_token = λ token s. (s, some (runtime_error (codes "No user by that token")));
  refresh_session = λ s. (s, none);
  setup = counted;
  on_head = counted;
  on_options = counted;
  on_get = counted;
  on_post = counted;
  on_put = counted;
  on_delete = counted;
  finish = counted;
  response = found;
}

abbrev open_to_all : Handler ℕ Bytes
open_to_all = record strict { requires_authentication = false }

abbrev handlers : HandlerName → Handler ℕ Bytes
handlers auth_handler = open_to_all
handlers _ = strict

-- The same, but no method answers.
abbrev failing : Handler ℕ Bytes
failing = record strict {
  setup = λ r s. (s, some (http_exception 400 []));
  on_post = λ r s. (s, some (http_exception 403 []));
}

abbrev failing_handlers : HandlerName → Handler ℕ Bytes
failing_handlers auth_handler = open_to_all
failing_handlers _ = failing

abbrev posted : Bytes → Incoming
posted target = record {
  request = record { target = target; fields = []; content_type = none; body = [] };
  method = post;
  method_string = codes "POST";
  session_token = some (codes "abc");
}

abbrev run : (HandlerName → Handler ℕ Bytes) → Bytes → Served (Option ℕ)
run hs target =
    process text (λ body status. body) (λ code. code) (codes "/api") hs (λ name. some 0) []
      (posted target)

-- A library that does not write a text that begins with a byte of no UTF-8 text.
abbrev careful : Bytes → Dumped
careful [] = text []
careful (b ∷ bs) = if b == 0xff then fails (codes "invalid UTF-8 byte") else text (b ∷ bs)

careful-DumpsUtf8 : DumpsUtf8 careful (λ body status. body)
careful-DumpsUtf8 = record { writes = writes; fails_in_utf8 = in_utf8 }
  where
    not_last : (b : ℕ) (bs : Bytes) → b < 0xff → Written (careful (b ∷ bs))
    not_last b bs h = (b ∷ bs, ground arith)

    writes : (t : Bytes) (status : ℕ) → Utf8 t → Written (careful t)
    writes [] status no_bytes = ([], refl)
    writes _ status (one_byte b rest h u) = not_last b _ (ground arith)
    writes _ status (two_bytes b c rest h k u) = not_last b _ (ground arith)
    writes _ status (three_bytes b c d rest h k u) = not_last b _ (ground arith)
    writes _ status (four_bytes b c d e rest h k l u) = not_last b _ (ground arith)

    in_utf8 : (t what : Bytes) → careful t ≡ fails what → Utf8 what
    in_utf8 [] what e = absurd (cc)
    in_utf8 (b ∷ bs) what e = elim (Bool-cases (b == 0xff)) [
      | inl y ↦ subst Utf8 (cc (rw y at e)) (ascii-Utf8 (codes "invalid UTF-8 byte") refl)
      | inr n ↦ absurd (cc (rw n at e))
    ]

-- The state is a byte below the last one, which the response holds; `post` throws.
abbrev Below : ℕ → Type 0
Below s = s < 0xff

abbrev kept : HttpRequest → ℕ → Exit ℕ
kept r s = (s, none)

abbrev answering : Handler ℕ Bytes
answering = record {
  requires_authentication = true;
  fill_by_token = λ token s. (s, none);
  refresh_session = λ s. (s, some (runtime_error (codes "No session")));
  setup = kept;
  on_head = kept;
  on_options = kept;
  on_get = kept;
  on_post = λ r s. (s, some (http_exception 403 (codes "Forbidden")));
  on_put = kept;
  on_delete = kept;
  finish = kept;
  response = found;
}

answering-Answers : (r : HttpRequest) → Answers careful Below answering r
answering-Answers r = record {
  finds = λ token s v. v;
  find_caught = λ token s v. refl;
  refreshes = λ s v. (v, ascii-Utf8 (codes "No session") refl);
  refresh_caught = λ s v. refl;
  sets_up = λ s v. v;
  heads = λ s v. v;
  tells_options = λ s v. v;
  gets = λ s v. v;
  posts = λ s v. (v, ascii-Utf8 (codes "Forbidden") refl);
  puts = λ s v. v;
  deletes = λ s v. v;
  finishes = λ s v. (s ∷ [], ground arith);
}

process-IsReply_example :
    IsReply
      (process careful
        (λ body status. body)
        (λ code. code)
        (codes "/api")
        (λ name. answering)
        (λ name. some 7)
        []
        (posted (codes "/api/auth?x=1"))).0
process-IsReply_example =
    process-IsReply careful (λ body status. body) (λ code. code) careful-DumpsUtf8 Below
      (codes "/api") (λ name. answering) (λ name. some 7) [] (posted (codes "/api/auth?x=1"))
      (λ name. (7, refl, omega arith)) (λ name. answering-Answers _)
