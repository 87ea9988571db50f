-- ===== src/Processor/Flushing.antt =====
-- audio_tool_api/audio/processor.cpp: the loop of `execute` that flushes the encoder.
use audio_tool_api.Prelude.{
  ℕ, suc, ◌≡◌, refl, sym, ◌∙◌, append-nil, Bool, true, false, none, arith, Bytes,
}
use audio_tool_api.Processor.{
  eof, eagain, enomem, exit_code, other, Code, Answer, gives, refuses, History, Ffmpeg,
  AudioProcessor,
}
use audio_tool_api.Processor.Media.{flushed, sent, converted_samples}
use audio_tool_api.Processor.Ownership.{free}
use audio_tool_api.Processor.Invariants.{IsRunning}
use audio_tool_api.Processor.Sending.{return_code_rule, encode_audio_frame-Kept}
use audio_tool_api.Effects.Rules.{
  Ensures, ◌$◌, bind_rule, then_rule, both, modify_rule, cleanup_rule, branch_rule, pure_rule,
  leave_rule, mono,
}
use audio_tool_api.Processor.Rules.{ask_rule}
use audio_tool_api.Processor.Encoding.{
  send_frame, frame_sent, packet_received, write_packet_out, encode_audio_frame,
}
use audio_tool_api.Processor.Execute.{flush}

-- Once it was told that no more frames come, the encoder answers AVERROR_EOF when it is told again.
abbrev pub FlushesOnce : {Q : Type 0} → Ffmpeg Q → Type 0
FlushesOnce av = (h : History) → flushed h ≡ true → av.flush_encoder h ≡ refuses eof

abbrev Unknown : {Q : Type 0} → AudioProcessor Q → Type 0
Unknown s = Unit {0}

abbrev IfData : {Q : Type 0} → Bool → AudioProcessor Q → Type 0
IfData b s = b ≡ true → flushed s.history ≡ true

module _ {Q : Type 0} (av : Ffmpeg Q) where
  packet_received-flushed :
      (a : Answer Bytes) (s : AudioProcessor Q)
      → flushed s.history ≡ true
      → Ensures (Unit {0}) (Unit {0}) Unknown IfData (packet_received av a s)
  unfolding packet_received write_packet_out
  packet_received-flushed (gives p) s f =
      bind_rule _ _ _
      $ modify_rule _ _
      $ cleanup_rule _ _ _
      $ bind_rule _ _ _
      $ ask_rule _ _ _ λ c e. bind_rule _ _ _ $ return_code_rule av _ _ tt $ pure_rule _ _ (λ t. f)
  packet_received-flushed (refuses eagain) s f = pure_rule _ _ (λ t. f)
  packet_received-flushed (refuses eof) s f = pure_rule _ _ (λ t. f)
  packet_received-flushed (refuses enomem) s f = leave_rule _ _ tt
  packet_received-flushed (refuses exit_code) s f = leave_rule _ _ tt
  packet_received-flushed (refuses other) s f = leave_rule _ _ tt

  frame_sent-flushed :
      (c : Code) (s : AudioProcessor Q)
      → ((n : ℕ) → c ≡ gives n → flushed s.history ≡ true)
      → Ensures (Unit {0}) (Unit {0}) Unknown IfData (frame_sent av c s)
  unfolding frame_sent
  frame_sent-flushed (gives n) s f =
      bind_rule _ _ _ $ ask_rule _ _ _ λ a e. packet_received-flushed a _ (f n refl)
  frame_sent-flushed (refuses eof) s f = pure_rule _ _ (λ t. absurd (cc))
  frame_sent-flushed (refuses eagain) s f = leave_rule _ _ tt
  frame_sent-flushed (refuses enomem) s f = leave_rule _ _ tt
  frame_sent-flushed (refuses exit_code) s f = leave_rule _ _ tt
  frame_sent-flushed (refuses other) s f = leave_rule _ _ tt

  flush_begins :
      (s : AudioProcessor Q)
      → Ensures (Unit {0}) (Unit {0}) Unknown IfData (encode_audio_frame av none s)
  unfolding encode_audio_frame send_frame
  flush_begins s =
      bind_rule _ _ _ $ ask_rule _ _ _ λ c e. frame_sent-flushed c _ (λ n e'. ground (arith, e'))

  sent_none :
      (c : Code) (s : AudioProcessor Q)
      → c ≡ refuses eof
      → Ensures (Unit {0}) (Unit {0}) Unknown (λ b s'. b ≡ false) (frame_sent av c s)
  unfolding frame_sent
  sent_none (gives n) s e = absurd (cc)
  sent_none (refuses eof) s e = pure_rule _ _ refl
  sent_none (refuses eagain) s e = leave_rule _ _ tt
  sent_none (refuses enomem) s e = leave_rule _ _ tt
  sent_none (refuses exit_code) s e = leave_rule _ _ tt
  sent_none (refuses other) s e = leave_rule _ _ tt

  flush_stops :
      FlushesOnce av
      → (s : AudioProcessor Q) → flushed s.history ≡ true
      → Ensures (Unit {0}) (Unit {0}) Unknown (λ b s'. b ≡ false) (encode_audio_frame av none s)
  unfolding encode_audio_frame send_frame
  flush_stops once s f =
      bind_rule _ _ _ $ ask_rule _ _ _ λ c e. sent_none c _ (sym e ∙ once s.history f)

module _ {Q : Type 0} (av : Ffmpeg Q) (once : FlushesOnce av) {B C : Type 0} where
  -- Two rounds are enough.
  pub flush-Kept :
      (fuel : ℕ) (s : AudioProcessor Q)
      → IsRunning free s
      → Ensures B C Unknown
          (λ a s'.
            (sent s'.history ≡ sent s.history)
            × (converted_samples s'.history ≡ converted_samples s.history)
            × IsRunning free s')
          (flush av (suc (suc fuel)) s)
  unfolding flush
  flush-Kept fuel s v =
      then_rule _ _ _
        (mono (both (encode_audio_frame-Kept av free none s v) (flush_begins av s)) (λ s' x. tt)
          (λ b s' x. x))
        λ b s' (k, f).
          branch_rule _ _ _ _
            (λ t.
              then_rule _ _ _
                (mono
                  (both (encode_audio_frame-Kept av free none s' k.running)
                    (flush_stops av once s' (f t)))
                  (λ s'' x. tt) (λ b' s'' x. x))
                λ b' s'' (k', e).
                  branch_rule _ _ _ _ (λ t'. absurd (cc))
                    (λ t'. pure_rule _ _ (
                      k'.frames_are ∙ append-nil _ ∙ k.frames_are ∙ append-nil _,
                      k'.converted_kept ∙ k.converted_kept,
                      k'.running,
                    )))
            (λ t. pure_rule _ _ (k.frames_are ∙ append-nil _, k.converted_kept, k.running))
