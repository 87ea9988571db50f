-- ===== src/Models/Rows.antt =====
-- Rows that are added at the end of a table.
use audio_tool_api.Prelude.{◌≡◌, refl, Bool, none, some, List, [], ◌∷◌, ◌++◌, if◌then◌else◌, arith}
use audio_tool_api.Models.{first}

pub first-append_last {ℓ} :
    {A : Type ℓ} (p : A → Bool) (rows : List A) (r : A)
    → first p rows ≡ none
    → first p (rows ++ r ∷ []) ≡ (if p r then some r else none)
unfolding first
first-append_last p [] r h = refl
first-append_last p (x ∷ rows) r h = ground (arith, first-append_last p rows r)
