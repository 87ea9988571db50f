-- ===== src/Processor/Chunks.antt =====
-- A list cut into frames of a given size, the last of which may be shorter: what the encoder of
-- `AudioProcessor` is to be given.
use audio_tool_api.Prelude.{
  ℕ, zero, suc, ◌≡◌, refl, sym, ap, ◌∙◌, List, [], ◌∷◌, ◌++◌, ◌<◌, ◌≤◌, length, take, drop, All,
  length-drop, length-append, take-append, drop-append, append_assoc, append-nil, arith,
}
use mathlib.Core.List.{flatten}
use audio_tool_api.Processor.{Samples}

abbrev pub chunks_within : ℕ → ℕ → Samples → List Samples
chunks_within zero size xs = []
chunks_within (suc rounds) size [] = []
chunks_within (suc rounds) size (x ∷ xs) =
    take size (x ∷ xs) ∷ chunks_within rounds size (drop size (x ∷ xs))

-- A round for each sample is enough.
abbrev pub chunks : ℕ → Samples → List Samples
chunks size xs = chunks_within (length xs) size xs

chunks_within-enough :
    (r r' size : ℕ) (xs : Samples)
    → 0 < size
    → length xs ≤ r
    → length xs ≤ r'
    → chunks_within r size xs ≡ chunks_within r' size xs
chunks_within-enough zero zero size xs p h h' = refl
chunks_within-enough zero (suc r') size [] p h h' = refl
chunks_within-enough zero (suc r') size (x ∷ xs) p h h' = absurd (omega arith)
chunks_within-enough (suc r) zero size [] p h h' = refl
chunks_within-enough (suc r) zero size (x ∷ xs) p h h' = absurd (omega arith)
chunks_within-enough (suc r) (suc r') size [] p h h' = refl
chunks_within-enough (suc r) (suc r') size (x ∷ xs) p h h' = ap (◌∷◌ (take size (x ∷ xs))) (
    chunks_within-enough r r' size (drop size (x ∷ xs)) p
      (omega (arith, length-drop {0} size (x ∷ xs))) (omega (arith, length-drop {0} size (x ∷ xs))))

pub chunks_step :
    (size : ℕ) (xs : Samples)
    → 0 < size
    → 0 < length xs
    → chunks size xs ≡ take size xs ∷ chunks size (drop size xs)
chunks_step size [] p h = absurd (omega arith)
chunks_step size (x ∷ xs) p h = ap (◌∷◌ (take size (x ∷ xs))) (
    chunks_within-enough (length xs) _ size (drop size (x ∷ xs)) p
      (omega (arith, length-drop {0} size (x ∷ xs))) (omega arith))

pub chunks_nil : (size : ℕ) (xs : Samples) → length xs ≤ 0 → chunks size xs ≡ []
chunks_nil size [] h = refl
chunks_nil size (x ∷ xs) h = absurd (omega arith)

-- Full frames in front stay as they are.
pub chunks-flatten :
    (size : ℕ) (frames : List Samples) (xs : Samples)
    → 0 < size
    → All (λ frame. length frame ≡ size) frames
    → chunks size (flatten frames ++ xs) ≡ frames ++ chunks size xs
unfolding flatten
chunks-flatten size [] xs p full = refl
chunks-flatten size (frame ∷ frames) xs p (e, full) =
    ap (chunks size) (append_assoc frame (flatten frames) xs)
    ∙ chunks_step size (frame ++ (flatten frames ++ xs)) p
        (omega (arith, e, length-append {0} frame (flatten frames ++ xs)))
    ∙ ap
        (λ n.
          take n (frame ++ (flatten frames ++ xs))
          ∷ chunks size (drop n (frame ++ (flatten frames ++ xs))))
        (sym e)
    ∙ ap (λ f. f ∷ chunks size (drop (length frame) (frame ++ (flatten frames ++ xs))))
        (take-append frame (flatten frames ++ xs))
    ∙ ap (λ ys. frame ∷ chunks size ys) (drop-append frame (flatten frames ++ xs))
    ∙ ap (◌∷◌ frame) (chunks-flatten size frames xs p full)

pub flatten-append_one :
    (frames : List Samples) (frame : Samples)
    → flatten (frames ++ (frame ∷ [])) ≡ flatten frames ++ frame
unfolding flatten
flatten-append_one [] frame = append-nil frame
flatten-append_one (f ∷ frames) frame =
    ap (λ xs. f ++ xs) (flatten-append_one frames frame)
    ∙ sym (append_assoc f (flatten frames) frame)

pub All-append_one :
    (size : ℕ) (frames : List Samples) (frame : Samples)
    → All (λ f. length f ≡ size) frames
    → length frame ≡ size
    → All (λ f. length f ≡ size) (frames ++ (frame ∷ []))
All-append_one size [] frame full e = (e, tt)
All-append_one size (f ∷ frames) frame (e', full) e = (e', All-append_one size frames frame full e)
