-- ===== src/Processor/Total.antt =====
-- `execute` comes to its end, and gives the encoder the samples in frames of 20 · 1024 · 1024, when
-- the input ends and ffmpeg does as it is documented to.
use audio_tool_api.Prelude.{
  ℕ, zero, suc, ◌≡◌, refl, sym, ap, subst, ◌∙◌, Bool, true, false, ◌++◌, ◌+◌, ◌<◌, ◌≤◌, ltb, length,
  append-nil, arith, Bool-cases, inl, inr,
}
use audio_tool_api.Processor.{
  eof, refuses, History, Samples, Ffmpeg, AudioProcessor, Run, branch, ◌>>=◌,
}
use audio_tool_api.Processor.Media.{sent, converted_samples, reads_made}
use audio_tool_api.Processor.Invariants.{IsLawful, IsGiven}
use audio_tool_api.Processor.Storing.{read_decode_convert_and_store-Stored}
use audio_tool_api.Processor.Chunks.{chunks, chunks_nil}
use audio_tool_api.Effects.Rules.{
  Ensures, ◌$◌, bind_rule, then_rule, deref_rule, branch_rule, pure_rule, mono,
}
use audio_tool_api.Processor.Encoding.{output_frame_size}
use audio_tool_api.Processor.Execute.{fill, drain, flush, rounds, spin}
use audio_tool_api.Processor.Flushing.{FlushesOnce, flush-Kept}
use audio_tool_api.Processor.Draining.{
  waiting, Full, Full-Owed, Stored-Full, drain-Full, drain-Owed,
}

-- The input has at most `last` packets.
abbrev pub EndsAfter : {Q : Type 0} → Ffmpeg Q → ℕ → Type 0
EndsAfter av last = (h : History) → last ≤ reads_made h → av.read_frame h ≡ refuses eof

more_left :
    {Q : Type 0} (av : Ffmpeg Q) (last : ℕ)
    → EndsAfter av last
    → (h : History) (n : ℕ) → IsGiven (av.read_frame h)
    → reads_made h ≡ n
    → n < last
more_left av last ends h n g e = elim (Bool-cases (ltb n last)) [
  | inl less ↦ ground (arith, less)
  | inr not_less ↦ absurd (subst IsGiven (ends h (ground (arith, not_less, e))) g)
]

-- What was sent, and what came out of the resampler.
abbrev pub AllSent : {Q A : Type 0} → A → AudioProcessor Q → Type 0
AllSent a s = sent s.history ≡ chunks output_frame_size (converted_samples s.history)

abbrev pub Unknown : {Q : Type 0} → AudioProcessor Q → Type 0
Unknown s = Unit {0}

module _ {Q : Type 0} (contents : Q → Samples) (last : ℕ) where
  record Filled (finished : Bool) (s s' : AudioProcessor Q) : Type 0 where
    full : Full contents s'
    within : finished ≡ false → reads_made s'.history ≤ last
    progress :
        finished ≡ false
        → length (waiting contents s) < output_frame_size
        → reads_made s.history < reads_made s'.history
    later : reads_made s.history ≤ reads_made s'.history

  module _ (av : Ffmpeg Q) (law : IsLawful av contents) (ends : EndsAfter av last)
      {B C : Type 0} where
    fill-Filled :
        (fuel : ℕ) (s : AudioProcessor Q)
        → Full contents s
        → reads_made s.history ≤ last
        → last < reads_made s.history + fuel
        → Ensures B C Unknown (λ finished. Filled finished s) (fill av fuel s)
    unfolding fill spin
    fill-Filled zero s f h h' = absurd (omega arith)
    fill-Filled (suc fuel) s f h h' =
        bind_rule _ _ _
        $ deref_rule _ _ (λ e. absurd (ground (arith, f.running.has_fifo)))
            λ q e.
              branch_rule _ _ _ _
                (λ t.
                  then_rule _ _ _
                    (mono (read_decode_convert_and_store-Stored av contents s f.running)
                      (λ s' x. tt) (λ a s' x. x))
                    λ finished s' (v, one, x).
                      let f' = Stored-Full contents s s' f v (x law) in
                      branch_rule _ _ _ _
                        (λ t'. pure_rule _ _ (record {
                          full = f';
                          within = λ e. absurd (cc);
                          progress = λ e. absurd (cc);
                          later = omega (arith, one.counted);
                        }))
                        (λ t'.
                          let (hist, g, r) = one.more t' in
                          let less = more_left av last ends hist _ g r in
                          mono
                            (fill-Filled fuel s' f' (omega (arith, one.counted, less))
                              (omega (arith, one.counted, h')))
                            (λ s'' z. tt)
                            (λ b s'' z. record {
                              full = z.full;
                              within = z.within;
                              progress = λ e p. omega (arith, one.counted, z.later);
                              later = omega (arith, one.counted, z.later);
                            })))
                (λ t. pure_rule _ _ (record {
                  full = f;
                  within = λ e. h;
                  progress = λ e' p. absurd (ground (arith, t, e, p, law.fifo_size q));
                  later = omega arith;
                }))

    -- The part of a round behind the loop that fills the buffer; `again` is the next round.
    after_fill :
        FlushesOnce av
        → (flushes : ℕ) (finished : Bool) (s s' : AudioProcessor Q) (next : Run Q (Unit {0}))
        → Filled finished s s'
        → ((s'' : AudioProcessor Q)
            → finished ≡ false
            → Full contents s''
            → length (waiting contents s'') < output_frame_size
            → reads_made s''.history ≡ reads_made s'.history
            → Ensures B C Unknown AllSent (next s''))
        → Ensures B C Unknown AllSent
            ((drain av finished >>= λ x. branch finished (flush av (suc (suc flushes))) next) s')
    after_fill once flushes true s s' next w again =
        then_rule _ _ _ (drain-Owed contents av law s' (Full-Owed contents s' w.full))
          λ a s'' (o, empty).
            branch_rule _ _ _ _
              (λ t.
                mono (flush-Kept av once flushes s'' o.running) (λ s3 x. tt)
                  (λ b s3 (e, e', v).
                    e
                    ∙ sym (append-nil _)
                    ∙ ap (λ fs. sent s''.history ++ fs)
                        (sym (chunks_nil output_frame_size (waiting contents s'') empty))
                    ∙ o.frames
                    ∙ ap (chunks output_frame_size) (sym e')))
              (λ t. absurd (cc))
    after_fill once flushes false s s' next w again =
        then_rule _ _ _ (drain-Full contents av law s' w.full) λ a s'' (o, short, e).
          branch_rule _ _ _ _ (λ t. absurd (cc)) (λ t. again s'' refl o short e)

    pub rounds-AllSent :
        FlushesOnce av
        → (fuel fills flushes : ℕ) (s : AudioProcessor Q) → Full contents s
        → length (waiting contents s) < output_frame_size
        → reads_made s.history ≤ last
        → last < reads_made s.history + fuel
        → last < fills
        → Ensures B C Unknown AllSent (rounds av fuel fills (suc (suc flushes)) s)
    unfolding rounds spin
    rounds-AllSent once zero fills flushes s f short h h' enough = absurd (omega arith)
    rounds-AllSent once (suc fuel) fills flushes s f short h h' enough =
        then_rule _ _ _ (fill-Filled fills s f h (omega (arith, enough))) λ finished s' w.
          after_fill once flushes finished s s' _ w λ s'' e o short' same.
            rounds-AllSent once fuel fills flushes s'' o short' (omega (arith, same, w.within e))
              (omega (arith, same, w.progress e short, h')) enough
