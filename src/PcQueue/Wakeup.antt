-- ===== src/PcQueue/Wakeup.antt =====
-- A wakeup of producer-consumer/pcqueue.c that is lost: `cond_broadcast` between the test of
-- `pcq_dequeue` and its `cond_wait`, since the broadcast is made without the waiter's mutex.
use so_project.Base.{
  ℕ, ◌<◌, ◌≡◌, refl, sym, subst, inl, inr, false, Option, none, some, List, [], ◌∷◌, update, ltb,
  ltb→lt, ==→eq, Bool-cases, Option-cases, ◌==◌, if◌then◌else◌, arith,
}
use so_project.PcQueue.{PcQueue}
use so_project.PcQueue.Fifo.{contents}
use so_project.PcQueue.Threads.{
  Pc, System, goto, act_at, act, start, Reach, push_begin, push_entered, push_testing, push_ready,
  pop_begin, pop_entered, pop_testing, pop_empty, pop_sleeping, pop_waiting, runs, stay, after,
}
use so_project.PcQueue.Exclusion.{some_inj, some_ne}

module _ {A : Type 0} where
  -- The steps of the threads of a schedule, one after the other.
  unfoldable run : ℕ → List ℕ → System A → Option (System A)
  run n [] s = some s
  run n (i ∷ rest) s = elim (act i s) [
    | none ↦ none
    | some t ↦ if ltb i n then run n rest t else none
  ]

  run-Reach :
      (n : ℕ) (schedule : List ℕ) (r s t : System A)
      → Reach n r s
      → run n schedule s ≡ some t
      → Reach n r t
  unfolding run
  run-Reach n [] r s t so_far q = subst (Reach n r) (some_inj q) so_far
  run-Reach n (i ∷ rest) r s t so_far q = elim (Option-cases (act i s)) [
    | inl stuck ↦ absurd (some_ne {x = t} (ground arith))
    | inr (u, acts) ↦ elim (Bool-cases (ltb i n)) [
      | inr out ↦ absurd (some_ne {x = t} (ground arith))
      | inl below ↦
          run-Reach n rest r u t (after so_far (runs i (ltb→lt i n below) acts)) (ground arith)
    ]
  ]

-- Thread 0 calls `pcq_dequeue`, and all others `pcq_enqueue` with `x`.
abbrev pub two_calls : {A : Type 0} → A → ℕ → Pc A
two_calls x i = if i == 0 then pop_begin else push_begin x

abbrev pub empty_queue : {A : Type 0} → (ℕ → A) → ℕ → PcQueue A
empty_queue buffer capacity = record {
  pcq_buffer = buffer;
  pcq_capacity = capacity;
  pcq_current_size = 0;
  pcq_head = 0;
  pcq_tail = 0;
}

module _ {A : Type 0} (buffer : ℕ → A) (capacity : ℕ) (x : A) where
  -- Thread 0 has found the queue empty, and let go of `pcq_current_size_lock`; thread 1 is at its
  -- test.
  abbrev halfway : System A
  halfway = record {
    queue = empty_queue buffer capacity;
    locks =
        update
          (update (update (update (update (λ m. none) 4 (some 0)) 0 (some 0)) 0 none) 3 (some 1)) 0
          (some 1);
    pc =
        update
          (update
            (update (update (update (update (two_calls x) 0 pop_entered) 0 pop_testing) 0 pop_empty)
              0 pop_sleeping)
            1 (push_entered x))
          1 (push_testing x);
    inserted = [];
    removed = [];
  }

  first_half :
      run 2 (0 ∷ 0 ∷ 0 ∷ 0 ∷ 1 ∷ 1 ∷ []) (start (empty_queue buffer capacity) [] (two_calls x))
      ≡ some halfway
  unfolding run act_at
  first_half = refl

  test_fails : 0 < capacity → act 1 halfway ≡ some (goto 1 (push_ready x) halfway)
  unfolding act_at
  test_fails h = let room : (0 == capacity) ≡ false = ground arith in rw room refl

  second_half :
      (s : System A) × (run 2 (1 ∷ 1 ∷ 1 ∷ 1 ∷ 1 ∷ 1 ∷ 0 ∷ []) (goto 1 (push_ready x) halfway)
        ≡ some s)
      × (s.pc 0 ≡ pop_waiting)
      × (contents s.queue ≡ x ∷ [])
      × (act 0 s ≡ none)
      × (act 1 s ≡ none)
  unfolding run act_at
  second_half = (_, refl, refl, refl, refl, refl)

  -- On an empty queue with room, one thread calls `pcq_dequeue` and another `pcq_enqueue`: a state
  -- can be reached in which the queue holds the element, the first thread waits, and no thread can
  -- go on.
  pub lost_wakeup :
      0 < capacity
      → (s : System A) × Reach 2 (start (empty_queue buffer capacity) [] (two_calls x)) s
        × (s.pc 0 ≡ pop_waiting)
        × (contents s.queue ≡ x ∷ [])
        × ((i : ℕ) → i < 2 → act i s ≡ none)
  lost_wakeup h =
      let (s, q, waits, holds_x, stuck0, stuck1) = second_half in
      let there =
        run-Reach 2 (0 ∷ 0 ∷ 0 ∷ 0 ∷ 1 ∷ 1 ∷ [])
          (start (empty_queue buffer capacity) [] (two_calls x)) _ halfway stay first_half in
      let tested = after there (runs 1 (omega arith) (test_fails h)) in
      (
        s,
        run-Reach 2 (1 ∷ 1 ∷ 1 ∷ 1 ∷ 1 ∷ 1 ∷ 0 ∷ []) _ _ s tested q,
        waits,
        holds_x,
        λ i lt. elim (Bool-cases (i == 0)) [
          | inl zeroth ↦ subst (λ k. act k s ≡ none) (sym (==→eq i 0 zeroth)) stuck0
          | inr first ↦ let one : 1 ≡ i = ground arith in subst (λ k. act k s ≡ none) one stuck1
        ],
      )
