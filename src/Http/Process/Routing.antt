-- ===== src/Http/Process/Routing.antt =====
-- The routes under a prefix.
use audio_tool_api.Prelude.{
  ◌≡◌, refl, ap, ◌∙◌, ◌++◌, [], ◌∷◌, some, true, All, All-imp, Bytes, drop-append, ltb, lt→ltb,
  if◌then◌else◌, length, drop, ◌&&◌, arith,
}
use audio_tool_api.Prelude.Dict.{starts_with, lookup}
use audio_tool_api.Http.Process.{application_routes, find_route}

starts_with-append : (xs ys : Bytes) → starts_with xs (xs ++ ys) ≡ true
starts_with-append [] ys = refl
starts_with-append (x ∷ xs) ys = ground (arith, starts_with-append xs ys)

under_prefix :
    (prefix path : Bytes) → find_route prefix (prefix ++ path) ≡ lookup path application_routes
unfolding find_route
under_prefix [] path = refl
under_prefix (x ∷ prefix) path =
    let p : Bytes = x ∷ prefix in
    let long : ltb 0 (length p) ≡ true = lt→ltb 0 (length p) (omega arith) in
    let stands : (ltb 0 (length p) && starts_with p (p ++ path)) ≡ true =
      ap (λ b. b && starts_with p (p ++ path)) long ∙ starts_with-append p path in
    ap (λ b. lookup (if b then drop (length p) (p ++ path) else p ++ path) application_routes)
      stands
    ∙ ap (λ q. lookup q application_routes) (drop-append p path)

routed : All (λ r. lookup r.0 application_routes ≡ some r.1) application_routes
unfolding lookup
routed = (refl, (refl, (refl, (refl, (refl, (refl, (refl, (refl, (refl, tt)))))))))

-- Whatever prefix is configured, each route's path behind it finds that route.
pub find_route-prefix :
    (prefix : Bytes) → All (λ r. find_route prefix (prefix ++ r.0) ≡ some r.1) application_routes
find_route-prefix prefix =
    All-imp (λ r. lookup r.0 application_routes ≡ some r.1)
      (λ r. find_route prefix (prefix ++ r.0) ≡ some r.1) application_routes
      (λ r e. under_prefix prefix r.0 ∙ e) routed
