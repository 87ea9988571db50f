-- ===== src/Processor/Storing.antt =====
-- What `read_decode_convert_and_store` keeps: the invariant of the loops, and the samples.
use audio_tool_api.Prelude.{
  suc, subst, ◌≡◌, refl, Bool, true, false, Option, none, some, [], ◌++◌, length, take_all, ◌∙◌, ap,
  append-nil, sym, arith,
}
use audio_tool_api.Processor.{frame, Samples, releases, Ffmpeg, AudioProcessor, note}
use audio_tool_api.Processor.Media.{sent, converted_samples, reads_made}
use audio_tool_api.Processor.Ownership.{free}
use audio_tool_api.Effects.Rules.{
  Ensures, ◌$◌, bind_rule, on_error_rule, cleanup_rule, deref_rule, pure_rule, then_rule, mono,
}
use audio_tool_api.Processor.Rules.{acquire_rule, attempt_rule, ask_rule}
use audio_tool_api.Processor.Decoding.{
  init_input_frame, decode_packet, decode_audio_frame, alloc_pointers, alloc_samples,
  convert_samples, grow_fifo, write_fifo, add_samples_to_fifo, convert_and_store, unless_finished,
  read_decode_convert_and_store,
}
use audio_tool_api.Processor.Invariants.{IsRunning, IsLawful, in_fifo, Stored, IsGiven, ReadsOne}
use audio_tool_api.Processor.Received.{
  packet_read_rule, frame_received_rule, refused_rule, converted_rule, fifo_written_rule,
}

-- With the frame that the cleanup gives back.
abbrev framed : {Q : Type 0} → AudioProcessor Q → AudioProcessor Q
framed s = note (releases frame) s

-- Nothing changes that the loops need.
record Same {Q : Type 0} (s s' : AudioProcessor Q) : Type 0 where
  running : IsRunning free (framed s')
  fifo_same : s'.fifo ≡ s.fifo
  sent_same : sent s'.history ≡ sent s.history
  one_read : reads_made s'.history ≡ suc (reads_made s.history)
  converted_same : converted_samples s'.history ≡ converted_samples s.history

module _ {Q : Type 0} (av : Ffmpeg Q) {B C : Type 0} where
  decode_packet-Same :
      (held : Bool) (s s' : AudioProcessor Q)
      → Same s s'
      → Ensures B C
          (λ s''. IsRunning free (framed s''))
          (λ d s''. Same s s'' × (held ≡ false → d.finished ≡ true))
          (decode_packet av held s')
  unfolding decode_packet
  decode_packet-Same true s s' w =
      bind_rule _ _ _
      $ ask_rule _ _ _ λ c e.
        bind_rule _ _ _
        $ refused_rule av _ _ (ground (arith, w.running, w.running.owned))
        $ cleanup_rule _ _ _
        $ bind_rule _ _ _
        $ ask_rule _ _ _ λ a e'.
          frame_received_rule _ _ _ _ (ground (arith, w.running, w.running.owned))
            (λ d p. (ground (arith, w, w.running, w.running.owned), λ e3. absurd (cc)))
  decode_packet-Same false s s' w =
      bind_rule _ _ _
      $ ask_rule _ _ _ λ c e.
        bind_rule _ _ _
        $ refused_rule av _ _ (ground (arith, w.running, w.running.owned))
        $ cleanup_rule _ _ _
        $ bind_rule _ _ _
        $ ask_rule _ _ _ λ a e'.
          frame_received_rule _ _ _ _ (ground (arith, w.running, w.running.owned))
            (λ d p. (ground (arith, w, w.running, w.running.owned), λ e3. p refl))

  decode_audio_frame-Same :
      (s : AudioProcessor Q)
      → IsRunning free (framed s)
      → Ensures B C
          (λ s'. IsRunning free (framed s'))
          (λ d s'. Same s s' × (d.finished ≡ false → IsGiven (av.read_frame s.history)))
          (decode_audio_frame av s)
  unfolding decode_audio_frame
  decode_audio_frame-Same s v =
      bind_rule _ _ _
      $ ask_rule _ _ _ λ c e.
        bind_rule _ _ _
        $ packet_read_rule _ _ _ (ground (arith, v, v.owned))
            (λ g.
              mono (decode_packet-Same true s _ (ground (arith, v, v.owned))) (λ s' x. x)
                (λ d s' x. (x.0, λ f. subst IsGiven (sym e) g)))
            (mono (decode_packet-Same false s _ (ground (arith, v, v.owned))) (λ s' x. x)
              (λ d s' x. (x.0, λ f. absurd (ground (arith, x.1 refl)))))

  -- The rest of a round: what is converted is stored.
  convert_and_store-Stored :
      (contents : Q → Samples) (o : Option Samples) (s : AudioProcessor Q)
      → IsRunning free (framed s)
      → Ensures B C
          (λ s'. IsRunning free (framed s'))
          (λ a s'.
            IsRunning free (framed s')
            × (reads_made s'.history ≡ reads_made s.history)
            × (IsLawful av contents → Stored contents s s'))
          (convert_and_store av o s)
  unfolding convert_and_store alloc_pointers alloc_samples convert_samples add_samples_to_fifo
      grow_fifo write_fifo
  convert_and_store-Stored contents none s v = pure_rule _ _ (
    v,
    refl,
    λ law. record {
      frames = refl;
      new = [];
      out_of_resampler = sym (append-nil _);
      into_fifo = sym (append-nil _);
    },
  )
  convert_and_store-Stored contents (some xs) s v =
      bind_rule _ _ _
      $ acquire_rule _ _ _ _ v
      $ cleanup_rule _ _ _
      $ bind_rule _ _ _
      $ on_error_rule _ _ _
      $ bind_rule _ _ _
      $ attempt_rule _ _ (ground (arith, v, v.owned)) λ n e.
        pure_rule _ _
        $ bind_rule _ _ _
        $ bind_rule _ _ _
        $ ask_rule _ _ _ λ a e'.
          converted_rule av _ _ (λ x e''. ground (arith, v, v.owned))
            λ ys e''.
              bind_rule _ _ _
              $ deref_rule _ _ (λ e3. absurd (ground (arith, v, v.has_fifo)))
                  λ q e3.
                    bind_rule _ _ _
                    $ attempt_rule _ _ (ground (arith, v, v.owned)) λ q' e4.
                      fifo_written_rule av _ _ _ _ (λ q''. ground (arith, v, v.owned))
                        λ m q'' e5. (
                          ground (arith, v, v.owned),
                          refl,
                          λ law. record {
                            frames = refl;
                            new = ys;
                            out_of_resampler = ground (arith, e'');
                            into_fifo = ground (
                              arith,
                              law.fifo_write _ q' q'' _ m e5,
                              law.fifo_realloc _ q q' _ e4,
                              take_all {0} (length xs) ys
                                  (omega (arith, law.swr_convert _ xs ys (e' ∙ e''))),
                            );
                          },
                        )

  unless_finished-Stored :
      (contents : Q → Samples) (finished : Bool) (o : Option Samples) (s s' : AudioProcessor Q)
      → Same s s'
      → Ensures B C
          (λ s''. IsRunning free (framed s''))
          (λ b s''.
            IsRunning free (framed s'')
            × (reads_made s''.history ≡ suc (reads_made s.history))
            × (b ≡ finished)
            × (IsLawful av contents → Stored contents s s''))
          (unless_finished av finished o s')
  unfolding unless_finished
  unless_finished-Stored contents true o s s' w = pure_rule _ _ (
    w.running,
    w.one_read,
    refl,
    λ law. record {
      frames = w.sent_same;
      new = [];
      out_of_resampler = w.converted_same ∙ sym (append-nil _);
      into_fifo = ap (in_fifo contents) w.fifo_same ∙ sym (append-nil _);
    },
  )
  unless_finished-Stored contents false o s s' w =
      then_rule _ _ _ (convert_and_store-Stored contents o s' w.running) λ a s'' x. pure_rule _ _ (
        x.0,
        x.1 ∙ w.one_read,
        refl,
        λ law.
            let y = x.2 law in
            record {
              frames = y.frames ∙ w.sent_same;
              new = y.new;
              out_of_resampler = y.out_of_resampler ∙ ap (λ z. z ++ y.new) w.converted_same;
              into_fifo = y.into_fifo ∙ ap (λ f. in_fifo contents f ++ y.new) w.fifo_same;
            },
      )

  -- A round of the loop that fills the buffer, whatever ffmpeg answers.
  pub read_decode_convert_and_store-Stored :
      (contents : Q → Samples) (s : AudioProcessor Q)
      → IsRunning free s
      → Ensures B C
          (IsRunning free)
          (λ finished s'.
            IsRunning free s'
            × ReadsOne av finished s s'
            × (IsLawful av contents → Stored contents s s'))
          (read_decode_convert_and_store av s)
  unfolding read_decode_convert_and_store init_input_frame
  read_decode_convert_and_store-Stored contents s v =
      bind_rule _ _ _
      $ acquire_rule _ _ _ _ v
      $ cleanup_rule _ _ _
      $ then_rule _ _ _ (decode_audio_frame-Same _ (ground (arith, v, v.owned))) λ d s' (w, g).
        mono (unless_finished-Stored contents d.finished d.data_present _ s' w) (λ s'' x. x)
          (λ b s'' x. (
            x.0,
            record { counted = x.1; more = λ f. (_, g (sym x.2 ∙ f), refl) },
            λ law.
                let y = x.3 law in
                record {
                  frames = y.frames;
                  new = y.new;
                  out_of_resampler = y.out_of_resampler;
                  into_fifo = y.into_fifo;
                },
          ))
