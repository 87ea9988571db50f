-- ===== src/Database/Rows.antt =====
-- A loop over a query visits its rows.
use audio_tool_api.Prelude.{
  suc, ◌≡◌, refl, sym, ap, ◌∙◌, true, false, some, List, [], ◌∷◌, ◌++◌, length, length-append,
  get_elem?, is_nil, append_assoc, arith,
}
use audio_tool_api.Database.{
  Query, QueryIterator, Collected, done, prepared, execute, row, query_iterator, increment, differs,
  prepend, collect, range_for,
}

module _ {R : Type 0} where
  abbrev at : List R → List R → Query R
  at front back = record { answer = front ++ back; did_execute = true; passed = length front }

  abbrev here : List R → List R → QueryIterator
  here front back = record { row_idx = length front; at_end = is_nil back }

  abbrev stop : List R → List R → QueryIterator
  stop front back = record { row_idx = length (front ++ back); at_end = true }

  get_elem?-append :
      (front back : List R) (r : R) → get_elem? (front ++ r ∷ back) (length front) ≡ some r
  get_elem?-append [] back r = refl
  get_elem?-append (x ∷ front) back r = get_elem?-append front back r

  differs-end : (front : List R) → differs (here front []) (stop front []) ≡ false
  differs-end front = ground (arith, length-append front [])

  differs-more :
      (front back : List R) (r : R) → differs (here front (r ∷ back)) (stop front (r ∷ back)) ≡ true
  differs-more front back r = ground arith

  row-at :
      (front back : List R) (r : R)
      → row (at front (r ∷ back)) ≡ (some r, at (front ++ r ∷ []) back)
  unfolding row
  row-at front back r = ground (
    arith,
    get_elem?-append front back r,
    append_assoc front (r ∷ []) back,
    length-append front (r ∷ []),
  )

  increment-here :
      (front back : List R) (r : R)
      → increment (at (front ++ r ∷ []) back) (here front (r ∷ back)) ≡ here (front ++ r ∷ []) back
  unfolding increment
  increment-here front [] r =
      ground (arith, length-append front (r ∷ []), length-append (front ++ r ∷ []) [])
  increment-here front (x ∷ back) r =
      ground (arith, length-append front (r ∷ []), length-append (front ++ r ∷ []) (x ∷ back))

  stop-more : (front back : List R) (r : R) → stop front (r ∷ back) ≡ stop (front ++ r ∷ []) back
  stop-more front back r =
      ap (λ l. record { row_idx = length l; at_end = true })
        (sym (append_assoc front (r ∷ []) back))

  collect-rows :
      (back front : List R)
      → collect (suc (length back)) (here front back) (stop front back) (at front back) ≡ done back
  unfolding collect
  collect-rows [] front = rw (differs-end front, collect) refl
  collect-rows (r ∷ back) front =
      let next : Query R = at (front ++ r ∷ []) back in
      let first = row-at front back r in
      let rest : QueryIterator → QueryIterator → Query R → Collected R =
        λ it end q. collect (suc (length back)) it end q in
      rw (differs-more front back r, ap (λ p. p.0) first, collect)
        (ap
            (λ p.
              prepend r (rest (increment p.1 (here front (r ∷ back))) (stop front (r ∷ back)) p.1))
            first
          ∙ ap (λ it. prepend r (rest it (stop front (r ∷ back)) next))
              (increment-here front back r)
          ∙ ap (λ end. prepend r (rest (here (front ++ r ∷ []) back) end next))
              (stop-more front back r)
          ∙ ap (prepend r) (collect-rows back (front ++ r ∷ [])))

  begin-here : (answer : List R) → query_iterator false (prepared answer) ≡ here [] answer
  unfolding query_iterator
  begin-here [] = refl
  begin-here (r ∷ answer) = ground arith

  -- A range-based `for` over a query ends, without an exception, and visits the rows that the
  -- server returned, each once and in order.
  pub range_for-rows : (answer : List R) → range_for (prepared answer) ≡ done answer
  unfolding range_for
  range_for-rows answer =
      ap
        (λ it.
          collect (suc (length answer)) it (query_iterator true (prepared answer))
            (execute (prepared answer)))
        (begin-here answer)
      ∙ collect-rows answer []
