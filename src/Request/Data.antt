-- ===== src/Request/Data.antt =====
-- A part's data, byte by byte up to the delimiter: the file that the callbacks collect.
use audio_tool_api.Prelude.{
  ℕ, suc, ◌≡◌, ◌≢◌, refl, sym, ap, subst, ◌∙◌, false, Bool-cases, inl, inr, ◌==◌, ==_iff, List, [],
  ◌∷◌, ◌++◌, append-nil, append_assoc, is_nil, All, Bytes,
}
use audio_tool_api.Multipart.{
  State, part_data, part_data_almost_boundary, part_data_boundary, Run, Step, Settings, Step-cases,
  proceed, return_at, return_zero, step_in, step, advance, cr, lf, loop,
}
use audio_tool_api.Request.{Upload, m_callbacks}
use audio_tool_api.Request.Matching.{
  after, Idle, SeenCr, Seen, Done, Idle-other, Idle-cr, SeenCr-lf, SeenCr-cr, SeenCr-other,
  Seen-next, Seen-cr, Seen-other, Seen-last,
}

loop-index {ℓ} :
    {S : Type ℓ} (settings : Settings S) (i j : ℕ) (r : Run S) (buf : Bytes)
    → (loop settings i r buf).0 ≡ (loop settings j r buf).0
unfolding loop
loop-index settings i j r [] = refl
loop-index settings i j r (c ∷ rest) = elim (Step-cases (step settings rest c r)) [
  | inl (r', e) ↦ rw (e, loop) (loop-index settings (suc i) (suc j) (advance c r') rest)
  | inr (inl (r', e)) ↦ rw (e, loop)
  | inr (inr (r', e)) ↦ rw (e, loop)
]

loop-proceed {ℓ} :
    {S : Type ℓ} (settings : Settings S) (i c : ℕ) (r r' : Run S) (rest : Bytes)
    → step settings rest c r ≡ proceed r'
    → loop settings i r (c ∷ rest) ≡ loop settings (suc i) (advance c r') rest
unfolding loop
loop-proceed settings i c r r' rest e = rw (e, loop)

-- The files that stand when the parser has read `buf`.
unfoldable pub files_of : Run Upload → Bytes → List Bytes
files_of r buf = (loop m_callbacks 0 r buf).0.user.files

pub files_of-nil : (r : Run Upload) → files_of r [] ≡ r.user.files
unfolding files_of loop
files_of-nil r = refl

pub files_of-proceed :
    (c : ℕ) (r r' : Run Upload) (rest : Bytes)
    → step m_callbacks rest c r ≡ proceed r'
    → files_of r (c ∷ rest) ≡ files_of (advance c r') rest
unfolding files_of
files_of-proceed c r r' rest q =
    ap (λ (x : Run Upload × ℕ). x.0.user.files) (loop-proceed m_callbacks 0 c r r' rest q)
    ∙ ap (λ (x : Run Upload). x.user.files) (loop-index m_callbacks 1 0 (advance c r') rest)

pub files_of-step :
    (s : State) (c : ℕ) (rest : Bytes) (r : Run Upload)
    → r.state ≡ s
    → is_nil rest ≡ false
    → step_in m_callbacks false c s r ≡ proceed (after (step_in m_callbacks false c s r))
    → files_of r (c ∷ rest) ≡ files_of (advance c (after (step_in m_callbacks false c s r))) rest
files_of-step s c rest r e n p = files_of-proceed c r _ rest (
    ap (λ k. step_in m_callbacks k c r.state r) n ∙ ap (λ k. step_in m_callbacks false c k r) e ∙ p)

-- Two runs whose first rounds agree.
pub files_of-same :
    (c : ℕ) (r r' : Run Upload) (rest : Bytes)
    → step m_callbacks rest c r ≡ step m_callbacks rest c r'
    → files_of r (c ∷ rest) ≡ files_of r' (c ∷ rest)
unfolding files_of loop
files_of-same c r r' rest e = ap (λ (s : Step Upload). (finish s).0.user.files) e
  where
    finish : Step Upload → Run Upload × ℕ
    finish s = elim s [
      | proceed q ↦ loop m_callbacks 1 (advance c q) rest
      | return_at q ↦ (q, 0)
      | return_zero q ↦ (q, 0)
    ]

pub is_nil-append_cons {ℓ} : {A : Type ℓ} (xs ys : List A) (y : A) → is_nil (xs ++ y ∷ ys) ≡ false
is_nil-append_cons [] ys y = refl
is_nil-append_cons (x ∷ xs) ys y = refl

-- The text `d` stands nowhere in `s`.
abbrev pub Free : Bytes → Bytes → Type 0
Free d s = (before behind : Bytes) → s ≢ before ++ (d ++ behind)

Free-suffix : (d xs ys : Bytes) → Free d (xs ++ ys) → Free d ys
Free-suffix d xs ys free before behind e =
    free (xs ++ before) behind (ap (◌++◌ xs) e ∙ sym (append_assoc xs before (d ++ behind)))

abbrev pub NoCr : Bytes → Type 0
NoCr = All λ x. x ≢ cr

-- The run behind the byte `c`.
abbrev next : State → ℕ → Run Upload → Run Upload
next s c r = advance c (after (step_in m_callbacks false c s r))

-- The boundary is `x₀ ∷ b'`; behind the delimiter stands `y ∷ t`, which `answer` tells the
-- files of.
module _ (x₀ : ℕ) (b' : Bytes) (files : List Bytes) (y : ℕ) (t : Bytes) (total : Bytes)
    (answer : List Bytes) (no_cr : NoCr (x₀ ∷ b'))
    (behind : (r : Run Upload)
      → Done (x₀ ∷ b') (files ++ total ∷ []) r
      → files_of r (y ∷ t) ≡ answer) where
  abbrev b : Bytes
  b = x₀ ∷ b'

  abbrev d : Bytes
  d = cr ∷ lf ∷ b

  Seen-delimiter :
      (post pre : Bytes) (x : ℕ) (r : Run Upload)
      → Seen b files total pre (x ∷ post) r
      → files_of r (x ∷ (post ++ y ∷ t)) ≡ answer
  Seen-delimiter [] pre x r v =
      let g = Seen-last b files total pre x r v in
      files_of-step part_data_boundary x (y ∷ t) r v.state_is refl g.0 ∙ behind _ g.1
  Seen-delimiter (x' ∷ post) pre x r v =
      let g = Seen-next b files total pre post x x' r v in
      files_of-step part_data_boundary x _ r v.state_is refl g.0
      ∙ Seen-delimiter post (pre ++ x ∷ []) x' _ g.1

  SeenCr-delimiter :
      (r : Run Upload) → SeenCr b files total r → files_of r (lf ∷ (b ++ y ∷ t)) ≡ answer
  SeenCr-delimiter r v =
      let g = SeenCr-lf b files total r v in
      files_of-step part_data_almost_boundary lf _ r v.state_is refl g.0
      ∙ Seen-delimiter b' [] x₀ _ g.1

  Idle-delimiter : (r : Run Upload) → Idle b files total r → files_of r (d ++ y ∷ t) ≡ answer
  Idle-delimiter r v =
      let g = Idle-cr b files total r v in
      files_of-step part_data cr _ r v.state_is refl g.0 ∙ SeenCr-delimiter _ g.1

  Seen-ends :
      (acc pre post : Bytes) (x : ℕ) (r : Run Upload)
      → x ≢ cr
      → Seen b files acc pre (x ∷ post) r
      → acc ++ (cr ∷ lf ∷ pre) ≡ total
      → files_of r (d ++ y ∷ t) ≡ answer
  Seen-ends acc pre post x r ne v e =
      let g = Seen-cr b files acc pre post x r ne v in
      let q = next part_data_boundary cr r in
      files_of-step part_data_boundary cr _ r v.state_is refl g.0
      ∙ SeenCr-delimiter q (subst (λ a. SeenCr b files a q) e g.1)

  SeenCr-ends :
      (acc : Bytes) (r : Run Upload)
      → SeenCr b files acc r
      → acc ++ cr ∷ [] ≡ total
      → files_of r (d ++ y ∷ t) ≡ answer
  SeenCr-ends acc r v e =
      let g = SeenCr-cr b files acc r v in
      let q = next part_data_almost_boundary cr r in
      files_of-step part_data_almost_boundary cr _ r v.state_is refl g.0
      ∙ SeenCr-delimiter q (subst (λ a. SeenCr b files a q) e g.1)

  -- The next byte of the boundary, met in the data: the match is not complete, since the data is
  -- free of the delimiter. `ih` is the claim for the bytes behind.
  Seen-hit :
      (rest acc pre post : Bytes) (x : ℕ) (r : Run Upload)
      → Seen b files acc pre (x ∷ post) r
      → NoCr (x ∷ post)
      → Free d (cr ∷ lf ∷ (pre ++ x ∷ rest))
      → acc ++ (cr ∷ lf ∷ (pre ++ x ∷ rest)) ≡ total
      → ((pre' post' : Bytes) (x' : ℕ) (r' : Run Upload)
          → Seen b files acc pre' (x' ∷ post') r'
          → NoCr (x' ∷ post')
          → Free d (cr ∷ lf ∷ (pre' ++ rest))
          → acc ++ (cr ∷ lf ∷ (pre' ++ rest)) ≡ total
          → files_of r' (rest ++ (d ++ y ∷ t)) ≡ answer)
      → files_of r (x ∷ (rest ++ (d ++ y ∷ t))) ≡ answer
  Seen-hit rest acc pre [] x r v n free e ih = absurd (
      free [] rest (
        ap (λ p. cr ∷ lf ∷ p)
          (sym (append_assoc pre (x ∷ []) rest) ∙ ap (λ p. p ++ rest) (sym v.splits))))
  Seen-hit rest acc pre (x' ∷ post) x r v n free e ih =
      let g = Seen-next b files acc pre post x x' r v in
      let q : cr ∷ lf ∷ (pre ++ x ∷ rest) ≡ cr ∷ lf ∷ ((pre ++ x ∷ []) ++ rest) =
        ap (λ p. cr ∷ lf ∷ p) (sym (append_assoc pre (x ∷ []) rest)) in
      files_of-step part_data_boundary x _ r v.state_is (is_nil-append_cons rest _ cr) g.0
      ∙ ih (pre ++ x ∷ []) post x' (next part_data_boundary x r) g.1 n.1 (subst (Free d) q free)
          (ap (◌++◌ acc) (sym q) ∙ e)

  mutual
    Idle-data :
        (rest : Bytes) (acc : Bytes) (r : Run Upload)
        → Idle b files acc r
        → Free d rest
        → acc ++ rest ≡ total
        → files_of r (rest ++ (d ++ y ∷ t)) ≡ answer
    Idle-data [] acc r v free e =
        Idle-delimiter r (subst (λ a. Idle b files a r) (sym (append-nil acc) ∙ e) v)
    Idle-data (c ∷ rest) acc r v free e = elim (Bool-cases (c == cr)) [
      | inl same ↦
          let c_is : c ≡ cr = (==_iff c cr).0 same in
          let g = Idle-cr b files acc r v in
          ap (λ k. files_of r (k ∷ (rest ++ (d ++ y ∷ t)))) c_is
          ∙ files_of-step part_data cr _ r v.state_is (is_nil-append_cons rest _ cr) g.0
          ∙ SeenCr-data rest acc (next part_data cr r) g.1
              (subst (λ k. Free d (k ∷ rest)) c_is free)
              (subst (λ k. acc ++ k ∷ rest ≡ total) c_is e)
      | inr other ↦
          let g = Idle-other b files acc c r (λ k. cc ((==_iff c cr).1 k, other)) v in
          files_of-step part_data c _ r v.state_is (is_nil-append_cons rest _ cr) g.0
          ∙ Idle-data rest (acc ++ c ∷ []) _ g.1 (Free-suffix d (c ∷ []) rest free)
              (append_assoc acc (c ∷ []) rest ∙ e)
    ]

    SeenCr-data :
        (rest : Bytes) (acc : Bytes) (r : Run Upload)
        → SeenCr b files acc r
        → Free d (cr ∷ rest)
        → acc ++ cr ∷ rest ≡ total
        → files_of r (rest ++ (d ++ y ∷ t)) ≡ answer
    SeenCr-data [] acc r v free e = SeenCr-ends acc r v e
    SeenCr-data (c ∷ rest) acc r v free e = elim (Bool-cases (c == lf)) [
      | inl same ↦
          let c_is : c ≡ lf = (==_iff c lf).0 same in
          let g = SeenCr-lf b files acc r v in
          ap (λ k. files_of r (k ∷ (rest ++ (d ++ y ∷ t)))) c_is
          ∙ files_of-step part_data_almost_boundary lf _ r v.state_is (is_nil-append_cons rest _ cr)
              g.0
          ∙ Seen-data rest acc [] b' x₀ (next part_data_almost_boundary lf r) g.1 no_cr
              (subst (λ k. Free d (cr ∷ k ∷ rest)) c_is free)
              (subst (λ k. acc ++ (cr ∷ k ∷ rest) ≡ total) c_is e)
      | inr other ↦ elim (Bool-cases (c == cr)) [
        | inl same ↦
            let c_is : c ≡ cr = (==_iff c cr).0 same in
            let g = SeenCr-cr b files acc r v in
            ap (λ k. files_of r (k ∷ (rest ++ (d ++ y ∷ t)))) c_is
            ∙ files_of-step part_data_almost_boundary cr _ r v.state_is
                (is_nil-append_cons rest _ cr) g.0
            ∙ SeenCr-data rest (acc ++ cr ∷ []) (next part_data_almost_boundary cr r) g.1
                (subst (λ k. Free d (k ∷ rest)) c_is (Free-suffix d (cr ∷ []) (c ∷ rest) free))
                (append_assoc acc (cr ∷ []) (cr ∷ rest)
                  ∙ subst (λ k. acc ++ (cr ∷ k ∷ rest) ≡ total) c_is e)
        | inr other' ↦
            let g =
              SeenCr-other b files acc c r (λ k. cc ((==_iff c cr).1 k, other'))
                (λ k. cc ((==_iff c lf).1 k, other)) v in
            files_of-step part_data_almost_boundary c _ r v.state_is (is_nil-append_cons rest _ cr)
              g.0
            ∙ Idle-data rest (acc ++ cr ∷ c ∷ []) (next part_data_almost_boundary c r) g.1
                (Free-suffix d (cr ∷ c ∷ []) rest free) (append_assoc acc (cr ∷ c ∷ []) rest ∙ e)
      ]
    ]

    Seen-data :
        (rest : Bytes) (acc pre post : Bytes) (x : ℕ) (r : Run Upload)
        → Seen b files acc pre (x ∷ post) r
        → NoCr (x ∷ post)
        → Free d (cr ∷ lf ∷ (pre ++ rest))
        → acc ++ (cr ∷ lf ∷ (pre ++ rest)) ≡ total
        → files_of r (rest ++ (d ++ y ∷ t)) ≡ answer
    Seen-data [] acc pre post x r v n free e =
        Seen-ends acc pre post x r n.0 v (ap (λ p. acc ++ (cr ∷ lf ∷ p)) (sym (append-nil pre)) ∙ e)
    Seen-data (c ∷ rest) acc pre post x r v n free e = elim (Bool-cases (c == x)) [
      | inl same ↦
          let c_is : c ≡ x = (==_iff c x).0 same in
          ap (λ k. files_of r (k ∷ (rest ++ (d ++ y ∷ t)))) c_is
          ∙ Seen-hit rest acc pre post x r v n
              (subst (λ k. Free d (cr ∷ lf ∷ (pre ++ k ∷ rest))) c_is free)
              (subst (λ k. acc ++ (cr ∷ lf ∷ (pre ++ k ∷ rest)) ≡ total) c_is e)
              (Seen-data rest acc)
      | inr other ↦ elim (Bool-cases (c == cr)) [
        | inl same ↦
            let c_is : c ≡ cr = (==_iff c cr).0 same in
            let g = Seen-cr b files acc pre post x r n.0 v in
            let held : Bytes = cr ∷ lf ∷ pre in
            ap (λ k. files_of r (k ∷ (rest ++ (d ++ y ∷ t)))) c_is
            ∙ files_of-step part_data_boundary cr _ r v.state_is (is_nil-append_cons rest _ cr) g.0
            ∙ SeenCr-data rest (acc ++ held) (next part_data_boundary cr r) g.1
                (subst (λ k. Free d (k ∷ rest)) c_is (Free-suffix d held (c ∷ rest) free))
                (append_assoc acc held (cr ∷ rest)
                  ∙ subst (λ k. acc ++ (cr ∷ lf ∷ (pre ++ k ∷ rest)) ≡ total) c_is e)
        | inr other' ↦
            let g =
              Seen-other b files acc pre post c x r (λ k. cc ((==_iff c cr).1 k, other'))
                (λ k. cc ((==_iff c x).1 k, other)) v in
            let q : pre ++ c ∷ rest ≡ (pre ++ c ∷ []) ++ rest =
              sym (append_assoc pre (c ∷ []) rest) in
            files_of-step part_data_boundary c _ r v.state_is (is_nil-append_cons rest _ cr) g.0
            ∙ Idle-data rest (acc ++ (cr ∷ lf ∷ (pre ++ c ∷ []))) (next part_data_boundary c r) g.1
                (Free-suffix d (cr ∷ lf ∷ (pre ++ c ∷ [])) rest
                  (subst (λ p. Free d (cr ∷ lf ∷ p)) q free))
                (append_assoc acc (cr ∷ lf ∷ (pre ++ c ∷ [])) rest
                  ∙ ap (λ p. acc ++ (cr ∷ lf ∷ p)) (sym q)
                  ∙ e)
      ]
    ]

  -- Data free of the delimiter, from the state where the data goes on, and the delimiter behind
  -- it: the data is appended to what is collected, and that becomes the next file.
  pub Idle-file :
      (data_bytes acc : Bytes) (r : Run Upload)
      → Idle b files acc r
      → Free d data_bytes
      → acc ++ data_bytes ≡ total
      → files_of r (data_bytes ++ (d ++ y ∷ t)) ≡ answer
  Idle-file = Idle-data
