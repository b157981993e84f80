-- ===== src/PcQueue/Needs.antt =====
-- What the threads rely on, and the order of the elements, under the threads of producer-consumer/pcqueue.c.
use so_project.Base.{
  ℕ, ◌≡◌, refl, sym, ap, ◌∙◌, subst, inl, inr, Bool, true, false, ◌||◌, Option, none, some, [], ◌∷◌,
  ◌++◌, update, update_ind, Bool-cases, Option-cases, ◌==◌, if◌then◌else◌,
}
use mathlib.Core.List.{append_assoc}
use mathlib.Core.Bool.{false≢true}
use so_project.PcQueue.{PcQueue, push, pop, pcq_enqueue, pcq_dequeue}
use so_project.PcQueue.Fifo.{contents, IsValid, pcq_enqueue_lem, pcq_dequeue_lem}
use so_project.PcQueue.Threads.{
  pcq_current_size_lock, Pc, System, goto, is_waiting_popper, waiting_pusher, wake_popper,
  wake_pusher, push_begin, push_entered, push_testing, push_full, push_sleeping, push_waiting,
  push_woken, push_ready, push_inserting, push_inserted, push_counted, push_leaving,
  push_signalling, pushed, pop_begin, pop_entered, pop_testing, pop_empty, pop_sleeping,
  pop_waiting, pop_woken, pop_ready, pop_removing, pop_removed, pop_counted, pop_leaving,
  pop_signalling, popped,
}
use so_project.PcQueue.Exclusion.{holds, Owned, some_inj, some_ne}

module _ {A : Type 0} (q : PcQueue A) (v : IsValid q) where
  push-IsValid :
      (x : A)
      → (q.pcq_current_size == q.pcq_capacity) ≡ false
      → IsValid (push q x) × (contents (push q x) ≡ contents q ++ (x ∷ []))
  unfolding pcq_enqueue
  push-IsValid x room = elim (pcq_enqueue_lem q v x) [
    | inl (len, q') ↦ absurd (some_ne {x = push q x} (sym q' ∙ rw room refl))
    | inr (len, (q', eq, v', kept, c)) ↦
        let same : q' ≡ push q x = some_inj (sym eq ∙ rw room refl) in
        (subst IsValid same v', subst (λ y. contents y ≡ contents q ++ (x ∷ [])) same c)
  ]

  pop-IsValid :
      (q.pcq_current_size == 0) ≡ false
      → IsValid (pop q).1 × (contents q ≡ (pop q).0 ∷ contents (pop q).1)
  unfolding pcq_dequeue
  pop-IsValid some_left = elim (pcq_dequeue_lem q v) [
    | inl (len, q') ↦ absurd (some_ne {x = pop q} (sym q' ∙ rw some_left refl))
    | inr (x, q', eq, v', kept, c) ↦
        let same : (x, q') ≡ pop q = some_inj (sym eq ∙ rw some_left refl) in
        subst (λ y. IsValid y.1 × (contents q ≡ y.0 ∷ contents y.1)) same (v', c)
  ]

or_left : (a c : Bool) → a ≡ true → (a || c) ≡ true
or_left a c h = rw h refl

or_right : (a c : Bool) → c ≡ true → (a || c) ≡ true
or_right true c h = refl
or_right false c h = h

-- A thread that has seen room, and one that has seen an element, under `pcq_current_size_lock`.
abbrev pub needs_room : {A : Type 0} → Pc A → Bool
needs_room (push_ready x) = true
needs_room (push_inserting x) = true
needs_room p = false

abbrev pub needs_item : {A : Type 0} → Pc A → Bool
needs_item pop_ready = true
needs_item pop_removing = true
needs_item p = false

-- The queue holds what was inserted and is not removed, in the order of the insertions.
pub record InOrder {A : Type 0} (s : System A) : Type 0 where
  pub queue_ok : IsValid s.queue
  pub fifo : s.removed ++ contents s.queue ≡ s.inserted
  pub room :
      (j : ℕ)
      → needs_room (s.pc j) ≡ true
      → (s.queue.pcq_current_size == s.queue.pcq_capacity) ≡ false
  pub item : (j : ℕ) → needs_item (s.pc j) ≡ true → (s.queue.pcq_current_size == 0) ≡ false

module _ {A : Type 0} where
  -- A step that leaves the queue alone.
  pub InOrder-goto :
      (s : System A) (i : ℕ) (p : Pc A) (f : ℕ → Pc A) (l : ℕ → Option ℕ)
      → InOrder s
      → ((j : ℕ) → needs_room (f j) ≡ true → needs_room (s.pc j) ≡ true)
      → ((j : ℕ) → needs_item (f j) ≡ true → needs_item (s.pc j) ≡ true)
      → (needs_room p ≡ true → (s.queue.pcq_current_size == s.queue.pcq_capacity) ≡ false)
      → (needs_item p ≡ true → (s.queue.pcq_current_size == 0) ≡ false)
      → InOrder (goto i p (record s { pc = f; locks = l }))
  InOrder-goto s i p f l o same_room same_item new_room new_item = record {
    queue_ok = o.queue_ok;
    fifo = o.fifo;
    room = λ j.
        update_ind
          (λ x. needs_room x ≡ true → (s.queue.pcq_current_size == s.queue.pcq_capacity) ≡ false) f
          i p j (λ _. new_room) (λ _ h. o.room j (same_room j h));
    item = λ j.
        update_ind (λ x. needs_item x ≡ true → (s.queue.pcq_current_size == 0) ≡ false) f i p j
          (λ _. new_item) (λ _ h. o.item j (same_item j h));
  }

  under_lock :
      (p : Pc A) → (needs_room p || needs_item p) ≡ true → holds pcq_current_size_lock p ≡ true
  unfolding holds
  under_lock (push_begin _) h = absurd (false≢true h)
  under_lock (push_entered _) h = absurd (false≢true h)
  under_lock (push_testing _) h = absurd (false≢true h)
  under_lock (push_full _) h = absurd (false≢true h)
  under_lock (push_sleeping _) h = absurd (false≢true h)
  under_lock (push_waiting _) h = absurd (false≢true h)
  under_lock (push_woken _) h = absurd (false≢true h)
  under_lock (push_ready _) h = refl
  under_lock (push_inserting _) h = refl
  under_lock push_inserted h = absurd (false≢true h)
  under_lock push_counted h = absurd (false≢true h)
  under_lock push_leaving h = absurd (false≢true h)
  under_lock push_signalling h = absurd (false≢true h)
  under_lock pushed h = absurd (false≢true h)
  under_lock pop_begin h = absurd (false≢true h)
  under_lock pop_entered h = absurd (false≢true h)
  under_lock pop_testing h = absurd (false≢true h)
  under_lock pop_empty h = absurd (false≢true h)
  under_lock pop_sleeping h = absurd (false≢true h)
  under_lock pop_waiting h = absurd (false≢true h)
  under_lock pop_woken h = absurd (false≢true h)
  under_lock pop_ready h = refl
  under_lock pop_removing h = refl
  under_lock (pop_removed _) h = absurd (false≢true h)
  under_lock (pop_counted _) h = absurd (false≢true h)
  under_lock (pop_leaving _) h = absurd (false≢true h)
  under_lock (pop_signalling _) h = absurd (false≢true h)
  under_lock (popped _) h = absurd (false≢true h)

  -- Two threads that rely on the number of elements are the same.
  alone :
      (s : System A) (i j : ℕ)
      → Owned s
      → (needs_room (s.pc i) || needs_item (s.pc i)) ≡ true
      → (needs_room (s.pc j) || needs_item (s.pc j)) ≡ true
      → i ≡ j
  alone s i j o hi hj = some_inj (
      sym (o pcq_current_size_lock i (under_lock (s.pc i) hi))
      ∙ o pcq_current_size_lock j (under_lock (s.pc j) hj))

  -- No other thread relies on the number of elements, nor does this one where it goes.
  unneeded :
      (s : System A) (i : ℕ) (p : Pc A) (test : Pc A → Bool)
      → Owned s
      → (needs_room (s.pc i) || needs_item (s.pc i)) ≡ true
      → ((r : Pc A) → test r ≡ true → (needs_room r || needs_item r) ≡ true)
      → test p ≡ false
      → {Q : Type 0} → (j : ℕ) → test (update s.pc i p j) ≡ true
      → Q
  unneeded s i p test w mine needs off {Q} j =
      update_ind (λ r. test r ≡ true → Q) s.pc i p j (λ _ h. absurd (false≢true (sym off ∙ h)))
        (λ ne h. absurd (ne (alone s i j w mine (needs (s.pc j) h))))

  pub InOrder-insert :
      (s : System A) (i : ℕ) (x : A)
      → Owned s
      → InOrder s
      → s.pc i ≡ push_inserting x
      → InOrder (record s {
        queue = push s.queue x;
        inserted = s.inserted ++ (x ∷ []);
        pc = update s.pc i push_inserted;
      })
  InOrder-insert s i x w o at_p0 =
      let (ok, c) = push-IsValid s.queue o.queue_ok x (o.room i (ap needs_room at_p0)) in
      let mine = ap (λ p. needs_room p || needs_item p) at_p0 in
      record {
        queue_ok = ok;
        fifo =
            ap (λ l. s.removed ++ l) c
            ∙ sym (append_assoc s.removed (contents s.queue) (x ∷ []))
            ∙ ap (λ l. l ++ (x ∷ [])) o.fifo;
        room =
            unneeded s i push_inserted needs_room w mine
              (λ r. or_left (needs_room r) (needs_item r)) refl;
        item =
            unneeded s i push_inserted needs_item w mine
              (λ r. or_right (needs_room r) (needs_item r)) refl;
      }

  pub InOrder-remove :
      (s : System A) (i : ℕ)
      → Owned s
      → InOrder s
      → s.pc i ≡ pop_removing
      → let (x, q) = pop s.queue in
        InOrder (record s {
          queue = q;
          removed = s.removed ++ (x ∷ []);
          pc = update s.pc i (pop_removed x);
        })
  InOrder-remove s i w o at_p0 =
      let (x, q) = pop s.queue in
      let (ok, c) = pop-IsValid s.queue o.queue_ok (o.item i (ap needs_item at_p0)) in
      let mine = ap (λ p. needs_room p || needs_item p) at_p0 in
      record {
        queue_ok = ok;
        fifo =
            append_assoc s.removed (x ∷ []) (contents q)
            ∙ ap (λ l. s.removed ++ l) (sym c)
            ∙ o.fifo;
        room =
            unneeded s i (pop_removed x) needs_room w mine
              (λ r. or_left (needs_room r) (needs_item r)) refl;
        item =
            unneeded s i (pop_removed x) needs_item w mine
              (λ r. or_right (needs_room r) (needs_item r)) refl;
      }

  -- A thread that is woken relies on nothing.
  pub asleep :
      (test : Pc A → Bool)
      → test pop_woken ≡ false
      → ((x : A) → test (push_woken x) ≡ false)
      → (p : Pc A)
      → (test (wake_popper p) ≡ true → test p ≡ true)
        × (test (wake_pusher p) ≡ true → test p ≡ true)
  asleep test pops pushes p = (
    elim (Bool-cases (is_waiting_popper p)) [
      | inl wakes ↦ λ h.
          absurd
            (false≢true (sym pops ∙ subst (λ b. test (if b then pop_woken else p) ≡ true) wakes h))
      | inr stays ↦ λ h. subst (λ b. test (if b then pop_woken else p) ≡ true) stays h
    ],
    let woken : Option A → Type 0 =
          λ o. test (elim o [ none ↦ p | some x ↦ push_woken x ]) ≡ true in
        elim (Option-cases (waiting_pusher p)) [
          | inl stays ↦ λ h. subst woken stays h
          | inr (x, wakes) ↦ λ h. absurd (false≢true (sym (pushes x) ∙ subst woken wakes h))
        ],
  )

  -- A step that only moves thread `i`, and mutexes.
  pub moves :
      (s t : System A) (i : ℕ) (p : Pc A) (l : ℕ → Option ℕ)
      → InOrder s
      → (needs_room p ≡ true → (s.queue.pcq_current_size == s.queue.pcq_capacity) ≡ false)
      → (needs_item p ≡ true → (s.queue.pcq_current_size == 0) ≡ false)
      → goto i p (record s { locks = l }) ≡ t
      → InOrder t
  moves s t i p l o new_room new_item same =
      subst InOrder same (InOrder-goto s i p s.pc l o (λ j h. h) (λ j h. h) new_room new_item)
