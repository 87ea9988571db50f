-- ===== src/Processor/Whole.antt =====
-- `execute` as a whole, for an ffmpeg that does as it is documented to.
use audio_tool_api.Prelude.{
  ℕ, suc, ◌≡◌, ◌≢◌, sym, ap, subst, ◌∙◌, true, none, [], ◌++◌, ◌<◌, length, All, arith, get_elem?,
}
use mathlib.Core.List.{flatten}
use audio_tool_api.Processor.{gives, History, Samples, Ffmpeg, AudioProcessor, fresh}
use audio_tool_api.Processor.Media.{sent, converted_samples, reads_made, traffic-IsSilent}
use audio_tool_api.Processor.Ownership.{
  Stage, fresh-Stage, open_input_file-Stage, open_output_file-Stage, init_resampler-Stage,
  init_fifo-Stage,
}
use audio_tool_api.Processor.Invariants.{IsLawful}
use audio_tool_api.Processor.Chunks.{chunks}
use audio_tool_api.Effects.Rules.{
  Ends, Ensures, ◌$◌, bind_rule, then_rule, both, modify_rule, cleanup_rule, deref_rule, mono,
}
use audio_tool_api.Processor.Rules.{acquire_rule, ask_rule}
use audio_tool_api.Processor.Opening.{close_input, init_fifo}
use audio_tool_api.Processor.Encoding.{
  write_output_file_header, write_output_file_trailer, output_frame_size,
}
use audio_tool_api.Processor.Execute.{
  pipeline, free_fifo, free_resampler, free_encoder, free_decoder, free_all, execute,
}
use audio_tool_api.Processor.Safety.{not_refused_rule}
use audio_tool_api.Processor.Flushing.{FlushesOnce}
use audio_tool_api.Processor.Draining.{waiting, Full, output_frame_size_pos}
use audio_tool_api.Processor.Total.{EndsAfter, AllSent, Unknown, rounds-AllSent}

-- The stream that `open_input_file` takes is there.
abbrev pub HasStream : {Q : Type 0} → Ffmpeg Q → Type 0
HasStream av =
    (h : History) (n : ℕ) → av.find_stream_info h ≡ gives n → get_elem? (av.streams h) n ≢ none

module _ {Q : Type 0} (contents : Q → Samples) where
  record Begun (s : AudioProcessor Q) : Type 0 where
    full : Full contents s
    nothing : waiting contents s ≡ []
    no_reads : reads_made s.history ≡ 0

  module _ (av : Ffmpeg Q) (law : IsLawful av contents) where
    init_fifo-empty :
        (s : AudioProcessor Q)
        → Ensures (Unit {0}) (Unit {0}) Unknown (λ a s'. waiting contents s' ≡ []) (init_fifo av s)
    unfolding init_fifo
    init_fifo-empty s =
        bind_rule _ _ _
        $ deref_rule _ _ (λ e. tt)
            λ c e.
              bind_rule _ _ _
              $ acquire_rule _ _ _ _ tt
              $ modify_rule _ _ (law.fifo_alloc c.sample_fmt c.channels)

    header-Begun :
        {B C : Type 0} (s : AudioProcessor Q)
        → Stage true true true true true true s
        → waiting contents s ≡ []
        → Ensures B C Unknown (λ a. Begun) (write_output_file_header av s)
    unfolding write_output_file_header flatten
    header-Begun s v empty =
        let i = traffic-IsSilent s.history v.quiet in
        bind_rule _ _ _
        $ ask_rule _ _ _ λ c e.
          not_refused_rule av _ _ (λ x e'. tt)
            (λ n e'. record {
              full = record {
                running = ground (arith, i, v, v.owner);
                sizes = subst (All (λ f. length f ≡ output_frame_size)) (sym i.no_frames) tt;
                kept =
                    ap (λ fs. flatten fs ++ waiting contents s) i.no_frames
                    ∙ empty
                    ∙ sym i.no_samples;
              };
              nothing = empty;
              no_reads = i.none_read;
            })

    trailer-AllSent :
        {B C : Type 0} (s : AudioProcessor Q)
        → AllSent tt s
        → Ensures B C Unknown AllSent (write_output_file_trailer av s)
    unfolding write_output_file_trailer
    trailer-AllSent s v =
        bind_rule _ _ _ $ ask_rule _ _ _ λ c e. not_refused_rule av _ _ (λ x e'. tt) (λ n e'. v)

    module _ (last : ℕ) (ends : EndsAfter av last) (once : FlushesOnce av)
        (has : HasStream av) where
      pipeline-AllSent :
          (fuel fills flushes : ℕ)
          → last < fuel
          → last < fills
          → Ensures ⊥ ⊥ Unknown AllSent (pipeline av fuel fills (suc (suc flushes)) fresh)
      unfolding pipeline
      pipeline-AllSent fuel fills flushes h h' =
          then_rule _ _ _
            (mono (open_input_file-Stage av fresh has fresh-Stage) (λ s x. tt) (λ a s v. v))
            λ a s v.
              then_rule _ _ _ (mono (open_output_file-Stage av s v) (λ s x. tt) (λ a s v. v))
                λ a s v.
                  then_rule _ _ _ (mono (init_resampler-Stage av s v) (λ s x. tt) (λ a s v. v))
                    λ a s v.
                      then_rule _ _ _
                        (mono (both (init_fifo-Stage av s v) (init_fifo-empty s)) (λ s x. tt)
                          (λ a s v. v))
                        λ a s (v, empty). then_rule _ _ _ (header-Begun s v empty) λ a s b.
                          then_rule _ _ _
                            (rounds-AllSent contents last av law ends once fuel fills flushes s
                              b.full (ground (arith, b.nothing, output_frame_size_pos))
                              (omega (arith, b.no_reads)) (omega (arith, b.no_reads)) h')
                            λ a s v. trailer-AllSent s v

  free_all-AllSent : (s : AudioProcessor Q) → AllSent tt s → AllSent tt (free_all s)
  unfolding free_all free_fifo free_resampler free_encoder free_decoder close_input
  free_all-AllSent s v = ground (arith, v)

  -- For an ffmpeg that keeps to what is documented, an input of at most `last` packets and a first
  -- stream that is there: in `execute` for a fresh processor no pointer that is null is read, no
  -- assertion fails, and the loops end within `last + 1` rounds, two for the last one. Without an
  -- error, the frames that the encoder was given are the samples that came out of the resampler, cut
  -- into pieces of 20 · 1024 · 1024 with the rest in the last one.
  pub execute-chunks :
      (av : Ffmpeg Q) (last fuel fills flushes : ℕ)
      → IsLawful av contents
      → EndsAfter av last
      → FlushesOnce av
      → HasStream av
      → last < fuel
      → last < fills
      → Ends ⊥ ⊥ Unknown
          (λ a s. sent s.history ≡ chunks output_frame_size (converted_samples s.history))
          (execute av fuel fills (suc (suc flushes)) fresh)
  unfolding execute
  execute-chunks av last fuel fills flushes law ends once has h h' =
      (cleanup_rule {E = Unknown} {R = AllSent} free_all _ fresh (
        mono (pipeline-AllSent av law last ends once has fuel fills flushes h h') (λ s x. tt)
          (λ a s v. free_all-AllSent s v))).ends
