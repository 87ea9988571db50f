-- ===== src/Http/Server/Rounds.antt =====
-- The branches of a round of the acceptor.
use audio_tool_api.Prelude.{
  ℕ, suc, ◌+◌, ◌≡◌, refl, Bool, true, false, not, some, Option-cases, inl, inr, ◌∷◌, map,
  if◌then◌else◌, ltb, get_elem?, set,
}
use audio_tool_api.Http.Threads.{WorkThread, load_factor, choose, enqueue}
use audio_tool_api.Http.Server.{
  System, open_connections, accept_round, enqueue_accepted, answered, AcceptAnswer, accepted,
  too_many_files, refused,
}

-- The connection is accepted for the thread number `i`, which is `t`.
abbrev pub accepted_for : ℕ → WorkThread ℕ → System → System
accepted_for i t s = record s {
  threads = set s.threads i (enqueue t s.accepted_number);
  accepted_number = suc s.accepted_number;
  objects = s.accepted_number ∷ s.objects;
  retries = 0;
}

-- A property of the state that each branch has; a connection is accepted only if at most 800 exist.
module _ {κ} (P : System → Type κ) (s : System) (same : (n : ℕ) → P (record s { retries = n }))
    (accepts : (i : ℕ) (t : WorkThread ℕ)
      → get_elem? s.threads i ≡ some t
      → ltb 800 (open_connections s) ≡ false
      → P (accepted_for i t s)) where
  abbrev cleared : System
  cleared = record s { retries = 0 }

  enqueue_accepted_rule : ltb 800 (open_connections s) ≡ false → P (enqueue_accepted cleared).1
  unfolding enqueue_accepted
  enqueue_accepted_rule few = elim (Option-cases (choose (map load_factor s.threads))) [
    | inl e ↦ rw (e, enqueue_accepted) (same 0)
    | inr (i, e) ↦ elim (Option-cases (get_elem? s.threads i)) [
      | inl g ↦ rw (e, g, enqueue_accepted) (same 0)
      | inr (t, g) ↦ rw (e, g, enqueue_accepted) (accepts i t g few)
    ]
  ]

  answered_rule :
      (answer : AcceptAnswer) → ltb 800 (open_connections s) ≡ false → P (answered answer cleared).1
  answered_rule accepted few = enqueue_accepted_rule few
  answered_rule too_many_files few = same 0
  answered_rule refused few = same 0

  admitted :
      (answer : AcceptAnswer) (b : Bool)
      → ltb 800 (open_connections s) ≡ b
      → P (if b then (true, record s { retries = s.retries + 1 }) else answered answer cleared).1
  admitted answer true few = same (s.retries + 1)
  admitted answer false few = answered_rule answer few

  stopped : (b : Bool) (x : Bool × System) → P x.1 → P (if b then (false, s) else x).1
  stopped true x p = same s.retries
  stopped false x p = p

  pub accept_round_rule : (answer : AcceptAnswer) → P (accept_round answer s).1
  unfolding accept_round
  accept_round_rule answer =
      stopped (not s.is_running) _ (admitted answer (ltb 800 (open_connections s)) refl)
