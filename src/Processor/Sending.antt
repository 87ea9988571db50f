-- ===== src/Processor/Sending.antt =====
-- What `load_encode_and_write` and `encode_audio_frame` keep: the invariant of the loops, the samples,
-- and the packets.
use audio_tool_api.Prelude.{
  ℕ, ◌≡◌, refl, Bool, true, false, Option, none, some, List, [], ◌∷◌, ◌++◌, ltb, length, take, drop,
  if◌then◌else◌, sym, ap, ◌∙◌, arith, Bytes, append-nil,
}
use Prim.Native.Nat.{min, zero, suc}
use audio_tool_api.Processor.{
  enomem, exit_code, eof, eagain, other, Answer, gives, refuses, Code, Samples, receives_packet,
  Exit, done, fails, crashes, spins, Ffmpeg, AudioProcessor, note, leave, pure, return_code, Run,
}
use audio_tool_api.Processor.Media.{sent, converted_samples, reads_made}
use audio_tool_api.Processor.Ownership.{Holding, free, taken}
use audio_tool_api.Processor.Invariants.{IsRunning, IsLawful, in_fifo}
use audio_tool_api.Effects.Rules.{
  Ensures, ◌$◌, bind_rule, then_rule, modify_rule, on_error_rule, cleanup_rule, gets_rule,
  deref_rule, pure_rule, leave_rule, mono,
}
use audio_tool_api.Processor.Rules.{acquire_rule, attempt_rule, ask_rule}
use audio_tool_api.Processor.Encoding.{
  output_frame_size, init_output_frame, send_frame, write_packet_out, packet_received, frame_sent,
  encode_audio_frame, fifo_loaded, read_fifo, as_exit, exits, load_encode_and_write,
}

-- A frame of the encoder, or none, is outside the FIFO buffer: what does not change with it.
pub record Kept {Q : Type 0} (held : Holding) (frames : List Samples) (s s' : AudioProcessor Q)
    : Type 0 where
  pub running : IsRunning held s'
  pub fifo_kept : s'.fifo ≡ s.fifo
  pub frames_are : sent s'.history ≡ frames
  pub reads_kept : reads_made s'.history ≡ reads_made s.history
  pub converted_kept : converted_samples s'.history ≡ converted_samples s.history

abbrev pub frames_of : Option Samples → List Samples
frames_of none = []
frames_of (some xs) = xs ∷ []

module _ {Q : Type 0} (av : Ffmpeg Q) {B C : Type 0} where
  pub return_code_rule :
      {E : AudioProcessor Q → Type 0} {R : Unit {0} → AudioProcessor Q → Type 0} (c : Code)
      (s : AudioProcessor Q)
      → E s
      → R tt s
      → Ensures {X = Code} B C E R (return_code c s)
  unfolding return_code
  return_code_rule (gives zero) s e r = pure_rule _ _ r
  return_code_rule (gives (suc n)) s e r = leave_rule _ _ e
  return_code_rule (refuses x) s e r = leave_rule _ _ e

  -- A packet that was received is written at once.
  packet_received-Kept :
      (held : Holding) (frames : List Samples) (a : Answer Bytes) (s s' : AudioProcessor Q)
      → Kept held frames s s'
      → Ensures B C
          (IsRunning held)
          (λ b. Kept held frames s)
          (packet_received av a (note (receives_packet a) s'))
  unfolding packet_received write_packet_out
  packet_received-Kept held frames (gives p) s s' k =
      bind_rule _ _ _
      $ modify_rule _ _
      $ cleanup_rule _ _ _
      $ bind_rule _ _ _
      $ ask_rule _ _ _ λ c e.
        bind_rule _ _ _
        $ return_code_rule _ _ (ground (arith, k, k.running, k.running.owned))
        $ pure_rule _ _ (ground (arith, k, k.running, k.running.owned))
  packet_received-Kept held frames (refuses eagain) s s' k =
      pure_rule _ _ (ground (arith, k, k.running, k.running.owned))
  packet_received-Kept held frames (refuses eof) s s' k =
      pure_rule _ _ (ground (arith, k, k.running, k.running.owned))
  packet_received-Kept held frames (refuses enomem) s s' k =
      leave_rule _ _ (ground (arith, k, k.running, k.running.owned))
  packet_received-Kept held frames (refuses exit_code) s s' k =
      leave_rule _ _ (ground (arith, k, k.running, k.running.owned))
  packet_received-Kept held frames (refuses other) s s' k =
      leave_rule _ _ (ground (arith, k, k.running, k.running.owned))

  frame_sent-Kept :
      (held : Holding) (frames : List Samples) (c : Code) (s s' : AudioProcessor Q)
      → Kept held frames s s'
      → Ensures B C (IsRunning held) (λ b. Kept held frames s) (frame_sent av c s')
  unfolding frame_sent
  frame_sent-Kept held frames (gives n) s s' k =
      bind_rule _ _ _ $ ask_rule _ _ _ λ a e. packet_received-Kept held frames a s s' k
  frame_sent-Kept held frames (refuses eof) s s' k = pure_rule _ _ k
  frame_sent-Kept held frames (refuses eagain) s s' k = leave_rule _ _ k.running
  frame_sent-Kept held frames (refuses enomem) s s' k = leave_rule _ _ k.running
  frame_sent-Kept held frames (refuses exit_code) s s' k = leave_rule _ _ k.running
  frame_sent-Kept held frames (refuses other) s s' k = leave_rule _ _ k.running

  pub encode_audio_frame-Kept :
      (held : Holding) (o : Option Samples) (s : AudioProcessor Q)
      → IsRunning held s
      → Ensures B C
          (IsRunning held)
          (λ b. Kept held (sent s.history ++ frames_of o) s)
          (encode_audio_frame av o s)
  unfolding encode_audio_frame send_frame
  encode_audio_frame-Kept held none s v =
      bind_rule _ _ _
      $ ask_rule _ _ _ λ c e.
        frame_sent-Kept held _ c s _ (ground (arith, v, v.owned, append-nil (sent s.history)))
  encode_audio_frame-Kept held (some xs) s v =
      bind_rule _ _ _
      $ bind_rule _ _ _
      $ gets_rule _ _
      $ bind_rule _ _ _
      $ modify_rule _ _
      $ ask_rule _ _ _ λ c e. frame_sent-Kept held _ c s _ (ground (arith, v, v.owned))

-- What a round takes from the FIFO buffer is what the encoder gets.
pub record Loaded {Q : Type 0} (contents : Q → Samples) (s s' : AudioProcessor Q) : Type 0 where
  pub one_frame :
      sent s'.history ≡ sent s.history ++ (take output_frame_size (in_fifo contents s.fifo) ∷ [])
  pub the_rest : in_fifo contents s'.fifo ≡ drop output_frame_size (in_fifo contents s.fifo)
  pub none_read : reads_made s'.history ≡ reads_made s.history
  pub none_converted : converted_samples s'.history ≡ converted_samples s.history

take-min : (n : ℕ) (xs : Samples) → take (min (length xs) n) xs ≡ take n xs
take-min zero [] = refl
take-min (suc n) [] = ap (λ k. take k []) {y = 0} (omega arith)
take-min zero (x ∷ xs) = ap (λ k. take k (x ∷ xs)) {y = 0} (omega arith)
take-min (suc n) (x ∷ xs) =
    ap (λ k. take k (x ∷ xs)) {y = suc (min (length xs) n)} (omega arith)
    ∙ ap (◌∷◌ x) (take-min n xs)

drop-min : (n : ℕ) (xs : Samples) → drop (min (length xs) n) xs ≡ drop n xs
drop-min zero [] = refl
drop-min (suc n) [] = ap (λ k. drop k []) {y = 0} (omega arith)
drop-min zero (x ∷ xs) = ap (λ k. drop k (x ∷ xs)) {y = 0} (omega arith)
drop-min (suc n) (x ∷ xs) =
    ap (λ k. drop k (x ∷ xs)) {y = suc (min (length xs) n)} (omega arith) ∙ drop-min n xs

module _ {Q : Type 0} (av : Ffmpeg Q) {B C : Type 0} {E : AudioProcessor Q → Type 0} where
  fifo_loaded_rule :
      {R : Samples → AudioProcessor Q → Type 0} (n : ℕ) (a : Answer Samples) (s : AudioProcessor Q)
      → E s
      → ((xs : Samples) → a ≡ gives xs → R xs s)
      → Ensures {X = Code} B C E R (fifo_loaded av n a s)
  unfolding fifo_loaded
  fifo_loaded_rule {R = R} n (gives xs) s e r = of_test (ltb (length xs) n)
    where
      of_test :
          (b : Bool)
          → Ensures {X = Code} B C E R ((if b then leave (refuses exit_code) else pure xs) s)
      of_test true = leave_rule _ _ e
      of_test false = pure_rule _ _ (r xs refl)
  fifo_loaded_rule n (refuses x) s e r = leave_rule _ _ e

  as_exit_rule :
      {A : Type 0} {R : A → AudioProcessor Q → Type 0} (m : Run Q A) (s : AudioProcessor Q)
      → Ensures {X = Code} B C E R (m s)
      → Ensures {X = Code} B C E R (as_exit m s)
  unfolding as_exit
  as_exit_rule {A = A} {R = R} m s p = of_exit (m s) p
    where
      of_exit :
          (x : Exit Code A × AudioProcessor Q)
          → Ensures {X = Code} B C E R x
          → Ensures {X = Code} B C E R (exits x)
      of_exit (done a, s') p = record { ends = p.ends }
      of_exit (fails c, s') p = record { ends = p.ends }
      of_exit (crashes, s') p = record { ends = p.ends }
      of_exit (spins, s') p = record { ends = p.ends }

module _ {Q : Type 0} (av : Ffmpeg Q) {B C : Type 0} where
  pub load_encode_and_write-Loaded :
      (contents : Q → Samples) (s : AudioProcessor Q)
      → IsRunning free s
      → Ensures B C
          (IsRunning free)
          (λ a s'. IsRunning free s' × (IsLawful av contents → Loaded contents s s'))
          (load_encode_and_write av s)
  unfolding load_encode_and_write init_output_frame read_fifo
  load_encode_and_write-Loaded contents s v =
      as_exit_rule av _ _
      $ bind_rule _ _ _
      $ deref_rule _ _ (λ e. absurd (ground (arith, v.has_fifo)))
          λ q e.
            bind_rule _ _ _
            $ bind_rule _ _ _
            $ acquire_rule _ _ _ _ v
            $ on_error_rule _ _ _
            $ bind_rule _ _ _
            $ attempt_rule _ _ (ground (arith, v, v.owned)) λ n e'.
              pure_rule _ _
              $ cleanup_rule _ _ _
              $ bind_rule _ _ _
              $ bind_rule _ _ _
              $ modify_rule _ _
              $ bind_rule _ _ _
              $ fifo_loaded_rule av _ _ _ (ground (arith, v, v.owned)) λ xs e''.
                bind_rule _ _ _
                $ modify_rule _ _
                $ pure_rule _ _
                $ then_rule _ _ _
                    (mono
                      (encode_audio_frame-Kept av taken (some xs) _ (ground (arith, v, v.owned)))
                      (λ s' w. ground (arith, w, w.owned)) (λ b s' k. k))
                    λ b s' k. pure_rule _ _ (
                      ground (arith, k.running, k.running.owned),
                      λ law.
                          let size = law.fifo_size q in
                          let (front, back) = law.fifo_read _ q _ xs e'' in
                          record {
                            one_frame =
                                k.frames_are
                                ∙ ap (λ ys. sent s.history ++ (ys ∷ []))
                                    (front
                                      ∙ ap (λ m. take (min m output_frame_size) (contents q)) size
                                      ∙ take-min output_frame_size (contents q)
                                      ∙ ap (λ f. take output_frame_size (in_fifo contents f))
                                          (sym e));
                            the_rest =
                                ap (in_fifo contents) k.fifo_kept
                                ∙ back
                                ∙ ap (λ m. drop (min m output_frame_size) (contents q)) size
                                ∙ drop-min output_frame_size (contents q)
                                ∙ ap (λ f. drop output_frame_size (in_fifo contents f)) (sym e);
                            none_read = k.reads_kept;
                            none_converted = k.converted_kept;
                          },
                    )
