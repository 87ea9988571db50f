-- ===== src/Request/Target.antt =====
-- The loop over the request's target, over a path and a query string.
use audio_tool_api.Prelude.{
  ℕ, ◌≡◌, ◌≢◌, refl, sym, ap, subst, ◌∙◌, Bool, true, false, ◌||◌, List, [], ◌∷◌, ◌++◌, Option,
  some, none, append-nil, append_assoc, arith, All, Bytes, ◌==◌,
}
use audio_tool_api.Prelude.Dict.{
  lookup, assign, emplace, lookup-assign, lookup-emplace_new, bytes_eq_iff,
}
use audio_tool_api.Request.{UrlState, url_step, url_loop, url_finish, parse_target}

abbrev pub Params : Type 0
Params = List (Bytes × Bytes)

-- Bytes that end neither the path nor a name nor a value.
abbrev pub IsPathByte : ℕ → Type 0
IsPathByte c = (c == b'?' || c == b'#') ≡ false

abbrev pub IsNameByte : ℕ → Type 0
IsNameByte c = IsPathByte c × ((c == b'=' || c == b'&') ≡ false)

abbrev pub IsValueByte : ℕ → Type 0
IsValueByte c = IsPathByte c × ((c == b'&') ≡ false)

abbrev pub at : Bytes → Params → Bytes → Bytes → Bool → Bool → UrlState
at path params name value in_params in_value = record {
  path = path;
  url_params = params;
  current_param_name = name;
  current_param_value = value;
  in_params = in_params;
  in_value = in_value;
}

module _ (path : Bytes) (m : Params) where
  pub path-run :
      (s name rest : Bytes)
      → All IsPathByte s
      → url_loop (at path m name [] false false) (s ++ rest)
        ≡ url_loop (at path m (name ++ s) [] false false) rest
  unfolding url_loop
  path-run [] name rest h =
      ap (λ n. url_loop (at path m n [] false false) rest) (sym (append-nil name))
  path-run (c ∷ s) name rest h =
      ap (λ u. url_loop u (s ++ rest)) step
      ∙ path-run s (name ++ c ∷ []) rest h.1
      ∙ ap (λ n. url_loop (at path m n [] false false) rest) (append_assoc name (c ∷ []) s)
    where
      step : url_step c (at path m name [] false false) ≡ at path m (name ++ c ∷ []) [] false false
      step = ground (arith, h.0)

  name-run :
      (s name rest : Bytes)
      → All IsNameByte s
      → url_loop (at path m name [] true false) (s ++ rest)
        ≡ url_loop (at path m (name ++ s) [] true false) rest
  unfolding url_loop
  name-run [] name rest h =
      ap (λ n. url_loop (at path m n [] true false) rest) (sym (append-nil name))
  name-run (c ∷ s) name rest h =
      ap (λ u. url_loop u (s ++ rest)) step
      ∙ name-run s (name ++ c ∷ []) rest h.1
      ∙ ap (λ n. url_loop (at path m n [] true false) rest) (append_assoc name (c ∷ []) s)
    where
      step : url_step c (at path m name [] true false) ≡ at path m (name ++ c ∷ []) [] true false
      step = ground (arith, h.0)

  value-run :
      (s name value rest : Bytes)
      → All IsValueByte s
      → url_loop (at path m name value true true) (s ++ rest)
        ≡ url_loop (at path m name (value ++ s) true true) rest
  unfolding url_loop
  value-run [] name value rest h =
      ap (λ n. url_loop (at path m name n true true) rest) (sym (append-nil value))
  value-run (c ∷ s) name value rest h =
      ap (λ u. url_loop u (s ++ rest)) step
      ∙ value-run s name (value ++ c ∷ []) rest h.1
      ∙ ap (λ n. url_loop (at path m name n true true) rest) (append_assoc value (c ∷ []) s)
    where
      step :
          url_step c (at path m name value true true) ≡ at path m name (value ++ c ∷ []) true true
      step = ground (arith, h.0)

-- `name=value`, joined by `&`.
abbrev pub render_param : Bytes × Bytes → Bytes → Bytes
render_param (k, v) rest = k ++ b'=' ∷ (v ++ rest)

abbrev pub render_query : Bytes × Bytes → Params → Bytes
render_query p [] = render_param p []
render_query p (q ∷ ps) = render_param p (b'&' ∷ render_query q ps)

abbrev pub IsParam : Bytes × Bytes → Type 0
IsParam (k, v) = (k ≢ []) × All IsNameByte k × All IsValueByte v

-- What the loop and the last piece store: every parameter by assignment, the last by `emplace`.
abbrev pub store : Params → Bytes × Bytes → Params → Params
store m (k, v) [] = emplace k v m
store m (k, v) (q ∷ ps) = store (assign k v m) q ps

pub param-run :
    (path : Bytes) (m : Params) (k v rest : Bytes)
    → All IsNameByte k
    → All IsValueByte v
    → url_loop (at path m [] [] true false) (render_param (k, v) rest)
      ≡ url_loop (at path m k v true true) rest
unfolding url_loop
param-run path m k v rest hk hv =
    name-run path m k [] (b'=' ∷ (v ++ rest)) hk ∙ value-run path m v k [] rest hv

abbrev Holds : UrlState → Bytes → Params → Type 0
Holds u path m = (u.path ≡ path) × (u.url_params ≡ m)

last_piece :
    (path : Bytes) (m : Params) (k v : Bytes)
    → k ≢ []
    → Holds (url_finish (at path m k v true true)) path (emplace k v m)
unfolding url_finish
last_piece path m [] v ne = absurd (ne refl)
last_piece path m (c ∷ k) v ne = ground arith

query-run :
    (p : Bytes × Bytes) (ps : Params) (path : Bytes) (m : Params)
    → IsParam p
    → All IsParam ps
    → Holds
        (url_finish (url_loop (at path m [] [] true false) (render_query p ps)))
        path
        (store m p ps)
unfolding url_loop
query-run (k, v) [] path m h hs =
    subst (λ u. Holds (url_finish u) path (emplace k v m)) (sym (param-run path m k v [] h.1 h.2))
      (last_piece path m k v h.0)
query-run (k, v) (q ∷ ps) path m h hs =
    subst (λ u. Holds (url_finish u) path (store (assign k v m) q ps))
      (sym (
        param-run path m k v (b'&' ∷ render_query q ps) h.1 h.2
        ∙ ap (λ u. url_loop u (render_query q ps)) step))
      (query-run q ps path (assign k v m) hs.0 hs.1)
  where
    step : url_step b'&' (at path m k v true true) ≡ at path (assign k v m) [] [] true false
    step = unfold url_step in refl

finished-path : (s : Bytes) → Holds (url_finish (at [] [] s [] false false)) s []
unfolding url_finish
finished-path [] = (refl, refl)
finished-path (c ∷ s) = ground arith

-- A target with no query: the whole of it is the path.
pub parse_target_path :
    (path : Bytes)
    → All IsPathByte path
    → ((parse_target path).path ≡ path) × ((parse_target path).url_params ≡ [])
unfolding parse_target url_loop
parse_target_path path h =
    subst (λ s. Holds (parse_target s) path []) (append-nil path)
      (subst (λ u. Holds (url_finish u) path []) (sym (path-run [] [] path [] [] h))
        (finished-path path))

-- A path and a query string: the loop stores the parameters from the left.
parse_target_query :
    (path : Bytes) (p : Bytes × Bytes) (ps : Params)
    → All IsPathByte path
    → IsParam p
    → All IsParam ps
    → Holds (parse_target (path ++ b'?' ∷ render_query p ps)) path (store [] p ps)
unfolding parse_target url_loop
parse_target_query path p ps h hp hs =
    subst (λ u. Holds (url_finish u) path (store [] p ps))
      (sym (path-run [] [] path [] (b'?' ∷ render_query p ps) h)) (query-run p ps path [] hp hs)

-- The names are different.
abbrev pub Distinct : Params → Type 0
Distinct [] = Unit
Distinct ((k, v) ∷ ps) = (lookup k ps ≡ none) × Distinct ps

-- No name of `ps` stands in `m`.
abbrev Apart : Params → Params → Type 0
Apart m [] = Unit
Apart m ((k, v) ∷ ps) = (lookup k m ≡ none) × Apart m ps

abbrev or_else : Option Bytes → Option Bytes → Option Bytes
or_else none o = o
or_else (some v) o = some v

Apart-assign :
    (k v : Bytes) (m ps : Params) → lookup k ps ≡ none → Apart m ps → Apart (assign k v m) ps
unfolding lookup
Apart-assign k v m [] n a = tt
Apart-assign k v m ((j, w) ∷ ps) n a = (
  ground (arith, lookup-assign k j v m, bytes_eq_iff k j, bytes_eq_iff j k, n, a.0),
  Apart-assign k v m ps (ground (arith, n)) a.1,
)

Apart-nil : (ps : Params) → Apart [] ps
unfolding lookup
Apart-nil [] = tt
Apart-nil (p ∷ ps) = (refl, Apart-nil ps)

or_else-none : (o : Option Bytes) → or_else o none ≡ o
or_else-none none = refl
or_else-none (some v) = refl

lookup-store :
    (k v j : Bytes) (ps m : Params)
    → Distinct ((k, v) ∷ ps)
    → Apart m ((k, v) ∷ ps)
    → lookup j (store m (k, v) ps) ≡ or_else (lookup j ((k, v) ∷ ps)) (lookup j m)
unfolding lookup
lookup-store k v j [] m d a = ground (arith, lookup-emplace_new k j v m a.0)
lookup-store k v j ((k', v') ∷ ps) m d a = ground (
  arith,
  lookup-store k' v' j ps (assign k v m) d.1 (Apart-assign k v m ((k', v') ∷ ps) d.0 a.1),
  lookup-assign k j v m,
  bytes_eq_iff k j,
  d.0,
)

-- A path and a query string whose names are different and not empty, all pieces free of the bytes
-- that end them: the path is found, and every name has the
-- value that the query gives it, and no other name has any.
pub parse_target-lookup :
    (path : Bytes) (p : Bytes × Bytes) (ps : Params) (name : Bytes)
    → All IsPathByte path
    → IsParam p
    → All IsParam ps
    → Distinct (p ∷ ps)
    → ((parse_target (path ++ b'?' ∷ render_query p ps)).path ≡ path)
      × (lookup name (parse_target (path ++ b'?' ∷ render_query p ps)).url_params
          ≡ lookup name (p ∷ ps))
unfolding lookup
parse_target-lookup path p ps name h hp hs d =
    let q = parse_target_query path p ps h hp hs in
    (
      q.0,
      ap (lookup name) q.1
          ∙ lookup-store p.0 p.1 name ps [] d (Apart-nil (p ∷ ps))
          ∙ or_else-none (lookup name (p ∷ ps)),
    )
