-- ===== src/Request/Marks.antt =====
-- A question mark or a hash inside a parameter of the request's target.
use audio_tool_api.Prelude.{ℕ, ◌≡◌, refl, ap, ◌∙◌, true, [], ◌∷◌, ◌++◌, arith, All, Bytes, ◌⊎◌}
use audio_tool_api.Request.{UrlState, url_step, url_loop, url_finish, parse_target}
use audio_tool_api.Request.Target.{
  IsPathByte, IsNameByte, IsValueByte, at, path-run, render_param, param-run,
}

url_loop-path :
    (s : Bytes) (u : UrlState)
    → All IsPathByte s
    → u.in_params ≡ true
    → ((url_loop u s).path ≡ u.path) × ((url_loop u s).in_params ≡ true)
unfolding url_loop
url_loop-path [] u h e = (refl, e)
url_loop-path (c ∷ s) u h e =
    let t = url_loop-path s (url_step c u) h.1 step.1 in (t.0 ∙ step.0, t.1)
  where
    step : ((url_step c u).path ≡ u.path) × ((url_step c u).in_params ≡ true)
    step = unfold url_step in ground (arith, h.0)

url_finish-path : (u : UrlState) → u.in_params ≡ true → (url_finish u).path ≡ u.path
unfolding url_finish
url_finish-path u e = ground arith

-- A question mark or a hash inside the only parameter's value, all pieces free of the bytes that
-- end them: what was read as the path is thrown away, and the name of that parameter becomes the
-- path, whatever stands behind with no further mark.
pub parse_target_mark_in_value :
    (path k v behind : Bytes) (mark : ℕ)
    → All IsPathByte path
    → All IsNameByte k
    → All IsValueByte v
    → (mark ≡ b'?') ⊎ (mark ≡ b'#')
    → All IsPathByte behind
    → (parse_target (path ++ b'?' ∷ render_param (k, v) (mark ∷ behind))).path ≡ k
unfolding parse_target url_loop
parse_target_mark_in_value path k v behind mark h hk hv hm hb =
    let u : UrlState = at k [] [] v true true in
    ap (λ w. (url_finish w).path)
      (path-run [] [] path [] (b'?' ∷ render_param (k, v) (mark ∷ behind)) h
        ∙ param-run path [] k v (mark ∷ behind) hk hv
        ∙ ap (λ w. url_loop w behind) step)
    ∙ url_finish-path (url_loop u behind) (url_loop-path behind u hb refl).1
    ∙ (url_loop-path behind u hb refl).0
  where
    step : url_step mark (at path [] k v true true) ≡ at k [] [] v true true
    step = unfold url_step in ground arith
