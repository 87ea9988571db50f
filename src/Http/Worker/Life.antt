-- ===== src/Http/Worker/Life.antt =====
-- Every history of a worker, as its work thread and its sockets drive it.
use audio_tool_api.Prelude.{
  ◌≡◌, refl, sym, ap, subst, ◌∙◌, Bool, true, false, Option, none, some, List, [], ◌∷◌, ◌++◌,
  append_assoc, arith, ◌⊎◌, inl, inr, Option-cases,
}
use mathlib.Core.Path.{subst₂}
use audio_tool_api.Http.Worker.{
  Operation, read_operation, write_operation, Worker, Effect, reads, writes, closes, Result, next,
  throws, fault, fresh, start, read_handler, write_handler, close_socket, write, destroy,
}

module _ {C R Q : Type 0} (process : Q → Option R) where
  -- The work thread gives a connection to a worker that has finished; an operation that is in
  -- flight completes, with an error or without.
  pub data Event (w : Worker C) : Result C R → Type 0 where
    gives : (c : C) → w.has_finished ≡ true → Event w (start process w c)
    read_done :
        (q : Option Q) → w.in_flight ≡ some read_operation → Event w (read_handler process q w)
    write_done :
        (failed : Bool)
        → w.in_flight ≡ some write_operation
        → Event w (write_handler process failed w)

  -- A history: the state it leads to, and all effects in order.
  pub data History : Worker C → List (Effect C R) → Type 0 where
    begin : History fresh []
    step :
        {w w' : Worker C} {log more : List (Effect C R)} {r : Result C R}
        → History w log
        → Event w r
        → r ≡ next w' more
        → History w' (log ++ more)

  -- The connections that an effect names.
  abbrev pub opened : List (Effect C R) → List C
  opened [] = []
  opened (reads c ∷ es) = c ∷ opened es
  opened (writes c r ∷ es) = opened es
  opened (closes c ∷ es) = opened es

  abbrev pub closed : List (Effect C R) → List C
  closed [] = []
  closed (reads c ∷ es) = closed es
  closed (writes c r ∷ es) = closed es
  closed (closes c ∷ es) = c ∷ closed es

  abbrev pub answered : List (Effect C R) → List C
  answered [] = []
  answered (reads c ∷ es) = answered es
  answered (writes c r ∷ es) = c ∷ answered es
  answered (closes c ∷ es) = answered es

  abbrev pub current : Option C → List C
  current none = []
  current (some c) = c ∷ []

  -- A worker is idle, or it has a connection and exactly one operation in flight.
  pub data IsSound (w : Worker C) : Type 0 where
    idle : w.conn ≡ none → w.has_finished ≡ true → w.in_flight ≡ none → IsSound w
    busy :
        (c : C) (o : Operation)
        → w.conn ≡ some c
        → w.has_finished ≡ false
        → w.has_started ≡ true
        → w.in_flight ≡ some o
        → IsSound w

  pub record Runs (w : Worker C) (r : Result C R) : Type 0 where
    pub after : Worker C
    pub log : List (Effect C R)
    pub result_is : r ≡ next after log
    pub sound : IsSound after
    pub balance : current w.conn ++ opened log ≡ closed log ++ current after.conn

  -- The exception that ended the operation is one that left `process`.
  pub record Escapes (w : Worker C) (r : Result C R) : Type 0 where
    pub request : Q
    pub escapes : process request ≡ none
    pub reads_it : r ≡ read_handler process (some request) w
    pub result_is : r ≡ throws

  closes_socket : (w : Worker C) (c : C) → w.conn ≡ some c → Runs w (close_socket process w)
  unfolding close_socket
  closes_socket w c e = record {
    after = record w { response = false; has_finished = true; conn = none; in_flight = none };
    log = closes c ∷ [];
    result_is = rw e;
    sound = idle refl refl refl;
    balance = rw e;
  }

  writes_reply :
      (w : Worker C) (q : Q) (x : R) (c : C)
      → IsSound w
      → w.conn ≡ some c
      → process q ≡ some x
      → Runs w (read_handler process (some q) w)
  unfolding read_handler write
  writes_reply w q x c (idle e f o) h p = absurd (cc)
  writes_reply w q x c (busy c' o e f s g) h p = record {
    after = record w { in_flight = some write_operation };
    log = writes c x ∷ [];
    result_is = rw (p, read_handler) (ground (arith, h));
    sound = busy c write_operation h f s refl;
    balance = rw h;
  }

  -- A sound worker takes every event that can reach it: it calls through no null connection, it
  -- throws only what left `process`, and otherwise it is sound afterwards.
  pub Event-Ends : {w : Worker C} {r : Result C R} → IsSound w → Event w r → Runs w r ⊎ Escapes w r
  unfolding start read_handler write_handler
  Event-Ends {w} (idle e f o) (gives c h) = inl (record {
    after = record w {
      conn = some c;
      has_finished = false;
      has_started = true;
      response = true;
      in_flight = some read_operation;
    };
    log = reads c ∷ [];
    result_is = ground arith;
    sound = busy c read_operation refl refl refl refl;
    balance = rw e;
  })
  Event-Ends (busy c o e f s g) (gives c' h) = absurd (cc)
  Event-Ends (idle e f o) (read_done q h) = absurd (cc)
  Event-Ends {w} (busy c o e f s g) (read_done none h) = inl (closes_socket w c e)
  Event-Ends {w} (busy c o e f s g) (read_done (some q) h) = elim (Option-cases (process q)) [
    | inl n ↦
        inr (record { request = q; escapes = n; reads_it = refl; result_is = rw (n, read_handler) })
    | inr (x, p) ↦ inl (writes_reply w q x c (busy c o e f s g) e p)
  ]
  Event-Ends (idle e f o) (write_done b h) = absurd (cc)
  Event-Ends {w} (busy c o e f s g) (write_done b h) = inl (closes_socket w c e)

  -- What a step that returned did.
  pub Event-Runs :
      {w w' : Worker C} {r : Result C R} {log : List (Effect C R)}
      → IsSound w
      → Event w r
      → r ≡ next w' log
      → Runs w r
  Event-Runs v e p = elim (Event-Ends v e) [ inl x ↦ x | inr x ↦ absurd (cc (x.result_is, p)) ]

  opened-append : (xs ys : List (Effect C R)) → opened (xs ++ ys) ≡ opened xs ++ opened ys
  opened-append [] ys = refl
  opened-append (reads c ∷ xs) ys = ap (◌∷◌ c) (opened-append xs ys)
  opened-append (writes c r ∷ xs) ys = opened-append xs ys
  opened-append (closes c ∷ xs) ys = opened-append xs ys

  closed-append : (xs ys : List (Effect C R)) → closed (xs ++ ys) ≡ closed xs ++ closed ys
  closed-append [] ys = refl
  closed-append (reads c ∷ xs) ys = closed-append xs ys
  closed-append (writes c r ∷ xs) ys = closed-append xs ys
  closed-append (closes c ∷ xs) ys = ap (◌∷◌ c) (closed-append xs ys)

  -- After every history the worker is sound, and the connections that it was given are those that
  -- it closed, in order, and the one that it serves.
  pub History-balance :
      {w : Worker C} {log : List (Effect C R)}
      → History w log
      → IsSound w × (opened log ≡ closed log ++ current w.conn)
  History-balance begin = (idle refl refl refl, refl)
  History-balance (step {w} {w'} {log} {more} h e r) =
      let ih = History-balance h in
      let v = Event-Runs ih.0 e r in
      let a : v.after ≡ w' = cc (v.result_is, r) in
      let l : v.log ≡ more = cc (v.result_is, r) in
      let balance : current w.conn ++ opened more ≡ closed more ++ current w'.conn =
        subst₂ (λ es x. current w.conn ++ opened es ≡ closed es ++ current x.conn) l a v.balance in
      (
        subst IsSound a v.sound,
        opened-append log more
            ∙ ap (λ cs. cs ++ opened more) ih.1
            ∙ append_assoc (closed log) (current w.conn) (opened more)
            ∙ ap (◌++◌ (closed log)) balance
            ∙ sym (append_assoc (closed log) (closed more) (current w'.conn))
            ∙ ap (λ cs. cs ++ current w'.conn) (sym (closed-append log more)),
      )

  -- After every history in which the worker has started and has finished, its destructor calls through the null
  -- pointer that `close_socket` left.
  pub destroy_after_finish :
      {w : Worker C} {log : List (Effect C R)}
      → History w log
      → w.has_started ≡ true
      → w.has_finished ≡ true
      → destroy process w ≡ fault
  unfolding destroy
  destroy_after_finish {w} h s f = faults (History-balance h).0
    where
      faults : IsSound w → destroy process w ≡ fault
      faults (idle e f' o) = ground (arith, s, e)
      faults (busy c o e f' s' g) = absurd (cc (f, f'))
