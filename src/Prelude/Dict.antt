-- ===== src/Prelude/Dict.antt =====
-- `std::string` search and `std::unordered_map` with string keys, as the sources use them: an
-- association list with `operator[]` assignment, `emplace`, `find`.
use Prim.Native.Nat.{ℕ, suc}
use mathlib.Core.Path.{◌≡◌, refl}
use mathlib.Core.Logic.{◌↔◌}
use mathlib.Core.Bool.{Bool, true, false, ◌&&◌}
use mathlib.Core.List.{List, [], ◌∷◌}
use mathlib.Core.Option
use mathlib.Core.Option.{Option, none, some}
use native.Mathlib.Omega.{arith}
use audio_tool_api.Prelude.Tests.{◌==◌, if◌then◌else◌}
use audio_tool_api.Prelude.Lists.{Bytes, bytes_eq}

pub bytes_eq_iff : (a b : Bytes) → (bytes_eq a b ≡ true) ↔ (a ≡ b)
bytes_eq_iff (x ∷ a) (y ∷ b) = ground (arith, bytes_eq_iff a b)
bytes_eq_iff _ _ = ground arith

pub bytes_eq_refl : (a : Bytes) → bytes_eq a a ≡ true
bytes_eq_refl a = (bytes_eq_iff a a).1 refl

abbrev pub starts_with : Bytes → Bytes → Bool
starts_with [] s = true
starts_with (x ∷ xs) [] = false
starts_with (x ∷ xs) (c ∷ s) = x == c && starts_with xs s

-- `s.find(needle)`; `none` is `npos`.
unfoldable pub find_bytes : Bytes → Bytes → Option ℕ
find_bytes needle [] = if starts_with needle [] then some 0 else none
find_bytes needle (c ∷ s) =
    let later = Option.map suc (find_bytes needle s) in
    if starts_with needle (c ∷ s) then some 0 else later

module _ {ℓ} {V : Type ℓ} where
  unfoldable pub lookup : Bytes → List (Bytes × V) → Option V
  lookup k [] = none
  lookup k ((j, v) ∷ m) = if bytes_eq j k then some v else lookup k m

  -- `m[k] = v`.
  unfoldable pub assign : Bytes → V → List (Bytes × V) → List (Bytes × V)
  assign k v [] = (k, v) ∷ []
  assign k v ((j, w) ∷ m) = if bytes_eq j k then (j, v) ∷ m else (j, w) ∷ assign k v m

  -- `m.emplace(k, v)` keeps an entry that is there.
  unfoldable pub emplace : Bytes → V → List (Bytes × V) → List (Bytes × V)
  emplace k v m = elim (lookup k m) [ none ↦ assign k v m | some w ↦ m ]

  pub lookup-assign :
      (k j : Bytes) (v : V) (m : List (Bytes × V))
      → lookup j (assign k v m) ≡ (if bytes_eq k j then some v else lookup j m)
  unfolding lookup assign
  lookup-assign k j v [] = refl
  lookup-assign k j v ((i, w) ∷ m) =
      ground (arith, bytes_eq_iff k j, bytes_eq_iff i k, bytes_eq_iff i j, lookup-assign k j v m)

  pub lookup-emplace_new :
      (k j : Bytes) (v : V) (m : List (Bytes × V))
      → lookup k m ≡ none
      → lookup j (emplace k v m) ≡ (if bytes_eq k j then some v else lookup j m)
  unfolding emplace
  lookup-emplace_new k j v m n = rw (n, emplace) (lookup-assign k j v m)
