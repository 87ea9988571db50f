-- ===== src/Processor/Draining.antt =====
-- The samples that wait in the FIFO buffer of `AudioProcessor` while it is filled and emptied: what
-- the loop that empties it gives the encoder, in frames of `output_frame_size`.
use audio_tool_api.Prelude.{
  ℕ, zero, suc, ◌≡◌, refl, sym, ap, subst, ◌∙◌, true, false, [], ◌∷◌, ◌++◌, ◌<◌, ◌≤◌, length, take,
  drop, All, append_assoc, length-take, length-drop, take-append-drop, arith,
}
use mathlib.Core.List.{flatten}
use audio_tool_api.Processor.{Samples, Ffmpeg, AudioProcessor}
use audio_tool_api.Processor.Media.{sent, converted_samples, reads_made}
use audio_tool_api.Processor.Ownership.{free}
use audio_tool_api.Processor.Invariants.{IsRunning, IsLawful, in_fifo, Stored}
use audio_tool_api.Processor.Sending.{Loaded, load_encode_and_write-Loaded}
use audio_tool_api.Processor.Chunks.{
  chunks, chunks_step, chunks-flatten, flatten-append_one, All-append_one,
}
use audio_tool_api.Effects.Rules.{
  Ensures, ◌$◌, bind_rule, then_rule, deref_rule, branch_rule, pure_rule, mono,
}
use audio_tool_api.Processor.Encoding.{output_frame_size}
use audio_tool_api.Processor.Execute.{drain, drain_rounds, spin}

pub output_frame_size_pos : 0 < output_frame_size
unfolding output_frame_size
output_frame_size_pos = omega arith

module _ {Q : Type 0} (contents : Q → Samples) where
  abbrev pub waiting : AudioProcessor Q → Samples
  waiting s = in_fifo contents s.fifo

  -- Before the input has ended: only full frames were sent, and the rest waits.
  pub record Full (s : AudioProcessor Q) : Type 0 where
    pub running : IsRunning free s
    pub sizes : All (λ f. length f ≡ output_frame_size) (sent s.history)
    pub kept : flatten (sent s.history) ++ waiting s ≡ converted_samples s.history

  -- When no sample comes any more: what waits is to be sent in frames.
  pub record Owed (s : AudioProcessor Q) : Type 0 where
    pub running : IsRunning free s
    pub frames :
        sent s.history ++ chunks output_frame_size (waiting s)
        ≡ chunks output_frame_size (converted_samples s.history)

  pub Full-Owed : (s : AudioProcessor Q) → Full s → Owed s
  Full-Owed s f = record {
    running = f.running;
    frames =
        sym (
          chunks-flatten output_frame_size (sent s.history) (waiting s) output_frame_size_pos
            f.sizes)
        ∙ ap (chunks output_frame_size) f.kept;
  }

  pub Stored-Full :
      (s s' : AudioProcessor Q) → Full s → IsRunning free s' → Stored contents s s' → Full s'
  Stored-Full s s' f v y = record {
    running = v;
    sizes = subst (All (λ f. length f ≡ output_frame_size)) (sym y.frames) f.sizes;
    kept =
        ap (λ fs. flatten fs ++ waiting s') y.frames
        ∙ ap (λ w. flatten (sent s.history) ++ w) y.into_fifo
        ∙ sym (append_assoc (flatten (sent s.history)) (waiting s) y.new)
        ∙ ap (λ w. w ++ y.new) f.kept
        ∙ sym y.out_of_resampler;
  }

  Loaded-Full :
      (s s' : AudioProcessor Q)
      → Full s
      → output_frame_size ≤ length (waiting s)
      → IsRunning free s'
      → Loaded contents s s'
      → Full s'
  Loaded-Full s s' f h v y =
      let front = take output_frame_size (waiting s) in
      record {
        running = v;
        sizes = subst (All (λ f. length f ≡ output_frame_size)) (sym y.one_frame) (
            All-append_one output_frame_size (sent s.history) front f.sizes
              (omega (arith, length-take {0} output_frame_size (waiting s))));
        kept =
            ap (λ fs. flatten fs ++ waiting s') y.one_frame
            ∙ ap (λ w. flatten (sent s.history ++ (front ∷ [])) ++ w) y.the_rest
            ∙ ap (λ w. w ++ drop output_frame_size (waiting s))
                (flatten-append_one (sent s.history) front)
            ∙ append_assoc (flatten (sent s.history)) front (drop output_frame_size (waiting s))
            ∙ ap (λ w. flatten (sent s.history) ++ w)
                (take-append-drop output_frame_size (waiting s))
            ∙ f.kept
            ∙ sym y.none_converted;
      }

  Loaded-Owed :
      (s s' : AudioProcessor Q)
      → Owed s
      → 0 < length (waiting s)
      → IsRunning free s'
      → Loaded contents s s'
      → Owed s'
  Loaded-Owed s s' f h v y =
      let front = take output_frame_size (waiting s) in
      record {
        running = v;
        frames =
            ap (λ fs. fs ++ chunks output_frame_size (waiting s')) y.one_frame
            ∙ ap (λ w. (sent s.history ++ (front ∷ [])) ++ chunks output_frame_size w) y.the_rest
            ∙ append_assoc (sent s.history) (front ∷ [])
                (chunks output_frame_size (drop output_frame_size (waiting s)))
            ∙ ap (λ w. sent s.history ++ w)
                (sym (chunks_step output_frame_size (waiting s) output_frame_size_pos h))
            ∙ f.frames
            ∙ ap (chunks output_frame_size) (sym y.none_converted);
      }

  module _ (av : Ffmpeg Q) (law : IsLawful av contents) {B C : Type 0} where
    drain_rounds-Full :
        (fuel : ℕ) (s : AudioProcessor Q)
        → Full s
        → length (waiting s) < fuel
        → Ensures B C
            (λ s'. Unit {0})
            (λ a s'.
              Full s'
              × (length (waiting s') < output_frame_size)
              × (reads_made s'.history ≡ reads_made s.history))
            (drain_rounds av fuel false s)
    unfolding drain_rounds spin
    drain_rounds-Full zero s f h = absurd (omega arith)
    drain_rounds-Full (suc fuel) s f h =
        bind_rule _ _ _
        $ deref_rule _ _ (λ e. absurd (ground (arith, f.running.has_fifo)))
            λ q e.
              branch_rule _ _ _ _
                (λ t.
                  then_rule _ _ _
                    (mono (load_encode_and_write-Loaded av contents s f.running) (λ s' x. tt)
                      (λ a s' x. x))
                    λ a s' (v, x).
                      let y = x law in
                      let long : output_frame_size ≤ length (waiting s) =
                        ground (arith, t, e, law.fifo_size q) in
                      mono
                        (drain_rounds-Full fuel s' (Loaded-Full s s' f long v y) (
                          omega (
                            arith,
                            ap length y.the_rest,
                            length-drop {0} output_frame_size (waiting s),
                            output_frame_size_pos,
                          )))
                        (λ s'' z. tt) (λ b s'' z. (z.0, z.1, z.2 ∙ y.none_read)))
                (λ t. pure_rule _ _ (f, ground (arith, t, e, law.fifo_size q), refl))

    drain_rounds-Owed :
        (fuel : ℕ) (s : AudioProcessor Q)
        → Owed s
        → length (waiting s) < fuel
        → Ensures B C
            (λ s'. Unit {0})
            (λ a s'. Owed s' × (length (waiting s') ≤ 0))
            (drain_rounds av fuel true s)
    unfolding drain_rounds spin
    drain_rounds-Owed zero s f h = absurd (omega arith)
    drain_rounds-Owed (suc fuel) s f h =
        bind_rule _ _ _
        $ deref_rule _ _ (λ e. absurd (ground (arith, f.running.has_fifo)))
            λ q e.
              branch_rule _ _ _ _
                (λ t.
                  then_rule _ _ _
                    (mono (load_encode_and_write-Loaded av contents s f.running) (λ s' x. tt)
                      (λ a s' x. x))
                    λ a s' (v, x).
                      let y = x law in
                      let some_wait : 0 < length (waiting s) =
                        ground (arith, t, e, law.fifo_size q, output_frame_size_pos) in
                      drain_rounds-Owed fuel s' (Loaded-Owed s s' f some_wait v y) (
                        omega (
                          arith,
                          ap length y.the_rest,
                          length-drop {0} output_frame_size (waiting s),
                          output_frame_size_pos,
                        )))
                (λ t. pure_rule _ _ (f, ground (arith, t, e, law.fifo_size q)))

    pub drain-Full :
        (s : AudioProcessor Q)
        → Full s
        → Ensures B C
            (λ s'. Unit {0})
            (λ a s'.
              Full s'
              × (length (waiting s') < output_frame_size)
              × (reads_made s'.history ≡ reads_made s.history))
            (drain av false s)
    unfolding drain
    drain-Full s f =
        bind_rule _ _ _
        $ deref_rule _ _ (λ e. absurd (ground (arith, f.running.has_fifo)))
            λ q e. drain_rounds-Full _ s f (ground (arith, e, law.fifo_size q))

    pub drain-Owed :
        (s : AudioProcessor Q)
        → Owed s
        → Ensures B C
            (λ s'. Unit {0})
            (λ a s'. Owed s' × (length (waiting s') ≤ 0))
            (drain av true s)
    unfolding drain
    drain-Owed s f =
        bind_rule _ _ _
        $ deref_rule _ _ (λ e. absurd (ground (arith, f.running.has_fifo)))
            λ q e. drain_rounds-Owed _ s f (ground (arith, e, law.fifo_size q))
