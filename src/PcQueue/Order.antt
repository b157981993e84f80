-- ===== src/PcQueue/Order.antt =====
-- The order of the elements under the threads of producer-consumer/pcqueue.c.
use so_project.Base.{
  ℕ, ◌+◌, ◌≤◌, ◌<◌, arith, ◌≡◌, refl, sym, ap, ◌∙◌, subst, inl, inr, false, some, ◌++◌, Bool-cases,
  ◌==◌,
}
use native.Mathlib.Nat.{mod-lt}
use mathlib.Core.Bool.{false≢true}
use so_project.PcQueue.{PcQueue}
use so_project.PcQueue.Fifo.{contents, IsValid}
use so_project.PcQueue.Threads.{
  Pc, System, wake_popper, wake_pusher, act_at, Step, Begins, start, Reach, push_begin,
  push_entered, push_testing, push_full, push_sleeping, push_waiting, push_woken, push_ready,
  push_inserting, push_inserted, push_counted, push_leaving, push_signalling, pushed, pop_begin,
  pop_entered, pop_testing, pop_empty, pop_sleeping, pop_waiting, pop_woken, pop_ready,
  pop_removing, pop_removed, pop_counted, pop_leaving, pop_signalling, popped, runs,
  spurious_pusher, spurious_popper, enqueues, dequeues, stay, after,
}
use so_project.PcQueue.Exclusion.{Owned, some_inj, some_ne, acquired, Owned-Step, Owned-start}
use so_project.PcQueue.Needs.{
  needs_room, needs_item, InOrder, InOrder-goto, InOrder-insert, InOrder-remove, asleep, moves,
}

module _ {A : Type 0} where
  InOrder-act :
      (s t : System A) (i : ℕ) (p0 : Pc A)
      → Owned s
      → InOrder s
      → s.pc i ≡ p0
      → act_at i p0 s ≡ some t
      → InOrder t
  unfolding act_at
  InOrder-act s t i (push_begin x) w o at_p0 q =
      moves s t i (push_entered x) _ o (λ h. absurd (false≢true h)) (λ h. absurd (false≢true h))
        (acquired s t 3 i (push_entered x) q).1
  InOrder-act s t i (push_entered x) w o at_p0 q =
      moves s t i (push_testing x) _ o (λ h. absurd (false≢true h)) (λ h. absurd (false≢true h))
        (acquired s t 0 i (push_testing x) q).1
  InOrder-act s t i (push_testing x) w o at_p0 q =
      elim (Bool-cases (s.queue.pcq_current_size == s.queue.pcq_capacity)) [
        | inl full ↦
            moves s t i (push_full x) s.locks o (λ h. absurd (false≢true h))
              (λ h. absurd (false≢true h)) (some_inj (rw full at q))
        | inr room ↦
            moves s t i (push_ready x) s.locks o (λ _. room) (λ h. absurd (false≢true h))
              (some_inj (rw room at q))
      ]
  InOrder-act s t i (push_full x) w o at_p0 q =
      moves s t i (push_sleeping x) _ o (λ h. absurd (false≢true h)) (λ h. absurd (false≢true h))
        (some_inj q)
  InOrder-act s t i (push_sleeping x) w o at_p0 q =
      moves s t i (push_waiting x) _ o (λ h. absurd (false≢true h)) (λ h. absurd (false≢true h))
        (some_inj q)
  InOrder-act s t i (push_waiting x) w o at_p0 q = absurd (some_ne q)
  InOrder-act s t i (push_woken x) w o at_p0 q =
      moves s t i (push_entered x) _ o (λ h. absurd (false≢true h)) (λ h. absurd (false≢true h))
        (acquired s t 3 i (push_entered x) q).1
  InOrder-act s t i (push_ready x) w o at_p0 q =
      moves s t i (push_inserting x) _ o (λ _. o.room i (ap needs_room at_p0))
        (λ h. absurd (false≢true h)) (acquired s t 1 i (push_inserting x) q).1
  InOrder-act s t i (push_inserting x) w o at_p0 q =
      subst InOrder (some_inj q) (InOrder-insert s i x w o at_p0)
  InOrder-act s t i push_inserted w o at_p0 q =
      moves s t i push_counted _ o (λ h. absurd (false≢true h)) (λ h. absurd (false≢true h))
        (some_inj q)
  InOrder-act s t i push_counted w o at_p0 q =
      moves s t i push_leaving _ o (λ h. absurd (false≢true h)) (λ h. absurd (false≢true h))
        (some_inj q)
  InOrder-act s t i push_leaving w o at_p0 q =
      moves s t i push_signalling _ o (λ h. absurd (false≢true h)) (λ h. absurd (false≢true h))
        (some_inj q)
  InOrder-act s t i push_signalling w o at_p0 q = subst InOrder (some_inj q) (
      InOrder-goto s i pushed (λ j. wake_popper (s.pc j)) s.locks o
        (λ j. (asleep needs_room refl (λ x. refl) (s.pc j)).0)
        (λ j. (asleep needs_item refl (λ x. refl) (s.pc j)).0) (λ h. absurd (false≢true h))
        (λ h. absurd (false≢true h)))
  InOrder-act s t i pushed w o at_p0 q = absurd (some_ne q)
  InOrder-act s t i pop_begin w o at_p0 q =
      moves s t i pop_entered _ o (λ h. absurd (false≢true h)) (λ h. absurd (false≢true h))
        (acquired s t 4 i pop_entered q).1
  InOrder-act s t i pop_entered w o at_p0 q =
      moves s t i pop_testing _ o (λ h. absurd (false≢true h)) (λ h. absurd (false≢true h))
        (acquired s t 0 i pop_testing q).1
  InOrder-act s t i pop_testing w o at_p0 q = elim (Bool-cases (s.queue.pcq_current_size == 0)) [
    | inl none_left ↦
        moves s t i pop_empty s.locks o (λ h. absurd (false≢true h)) (λ h. absurd (false≢true h))
          (some_inj (rw none_left at q))
    | inr some_left ↦
        moves s t i pop_ready s.locks o (λ h. absurd (false≢true h)) (λ _. some_left)
          (some_inj (rw some_left at q))
  ]
  InOrder-act s t i pop_empty w o at_p0 q =
      moves s t i pop_sleeping _ o (λ h. absurd (false≢true h)) (λ h. absurd (false≢true h))
        (some_inj q)
  InOrder-act s t i pop_sleeping w o at_p0 q =
      moves s t i pop_waiting _ o (λ h. absurd (false≢true h)) (λ h. absurd (false≢true h))
        (some_inj q)
  InOrder-act s t i pop_waiting w o at_p0 q = absurd (some_ne q)
  InOrder-act s t i pop_woken w o at_p0 q =
      moves s t i pop_entered _ o (λ h. absurd (false≢true h)) (λ h. absurd (false≢true h))
        (acquired s t 4 i pop_entered q).1
  InOrder-act s t i pop_ready w o at_p0 q =
      moves s t i pop_removing _ o (λ h. absurd (false≢true h))
        (λ _. o.item i (ap needs_item at_p0)) (acquired s t 2 i pop_removing q).1
  InOrder-act s t i pop_removing w o at_p0 q =
      subst InOrder (some_inj q) (InOrder-remove s i w o at_p0)
  InOrder-act s t i (pop_removed x) w o at_p0 q =
      moves s t i (pop_counted x) _ o (λ h. absurd (false≢true h)) (λ h. absurd (false≢true h))
        (some_inj q)
  InOrder-act s t i (pop_counted x) w o at_p0 q =
      moves s t i (pop_leaving x) _ o (λ h. absurd (false≢true h)) (λ h. absurd (false≢true h))
        (some_inj q)
  InOrder-act s t i (pop_leaving x) w o at_p0 q =
      moves s t i (pop_signalling x) _ o (λ h. absurd (false≢true h)) (λ h. absurd (false≢true h))
        (some_inj q)
  InOrder-act s t i (pop_signalling x) w o at_p0 q = subst InOrder (some_inj q) (
      InOrder-goto s i (popped x) (λ j. wake_pusher (s.pc j)) s.locks o
        (λ j. (asleep needs_room refl (λ x. refl) (s.pc j)).1)
        (λ j. (asleep needs_item refl (λ x. refl) (s.pc j)).1) (λ h. absurd (false≢true h))
        (λ h. absurd (false≢true h)))
  InOrder-act s t i (popped x) w o at_p0 q = absurd (some_ne q)

  InOrder-Step : {n : ℕ} {s t : System A} → Owned s → InOrder s → Step n s t → InOrder t
  InOrder-Step {s} {t} w o (runs i lt q) = InOrder-act s t i (s.pc i) w o refl q
  InOrder-Step {s} w o (spurious_pusher i x lt q) =
      InOrder-goto s i (push_woken x) s.pc s.locks o (λ j h. h) (λ j h. h)
        (λ h. absurd (false≢true h)) (λ h. absurd (false≢true h))
  InOrder-Step {s} w o (spurious_popper i lt q) =
      InOrder-goto s i pop_woken s.pc s.locks o (λ j h. h) (λ j h. h) (λ h. absurd (false≢true h))
        (λ h. absurd (false≢true h))

  reached : {n : ℕ} {s t : System A} → Owned s → InOrder s → Reach n s t → Owned t × InOrder t
  reached w o stay = (w, o)
  reached w o (after r st) =
      let (w', o') = reached w o r in (Owned-Step w' st, InOrder-Step w' o' st)

  Begins-needs : (p : Pc A) → Begins p → (needs_room p ≡ false) × (needs_item p ≡ false)
  Begins-needs p (enqueues x) = (refl, refl)
  Begins-needs p dequeues = (refl, refl)

in_order :
    {A : Type 0} (n : ℕ) (q : PcQueue A) (calls : ℕ → Pc A) (s : System A)
    → IsValid q
    → ((i : ℕ) → Begins (calls i))
    → Reach n (start q (contents q) calls) s
    → Owned s × InOrder s
in_order n q calls s v b r =
    let first : InOrder (start q (contents q) calls) = record {
      queue_ok = v;
      fifo = refl;
      room = λ j h. absurd (false≢true (sym (Begins-needs (calls j) (b j)).0 ∙ h));
      item = λ j h. absurd (false≢true (sym (Begins-needs (calls j) (b j)).1 ∙ h));
    } in
    reached (Owned-start q (contents q) calls b) first r

-- However the calls on a valid queue are interleaved, the queue stays valid, and what was removed,
-- followed by what the queue holds, is what it held at the start, followed by what was inserted, in
-- order.
pub fifo_order :
    {A : Type 0} (n : ℕ) (q : PcQueue A) (calls : ℕ → Pc A) (s : System A)
    → IsValid q
    → ((i : ℕ) → Begins (calls i))
    → Reach n (start q (contents q) calls) s
    → IsValid s.queue × (s.removed ++ contents s.queue ≡ s.inserted)
fifo_order n q calls s v b r = let (w, o) = in_order n q calls s v b r in (o.queue_ok, o.fifo)

-- However the calls on a valid queue are interleaved, the two positions stay in the buffer, there are
-- at most as many elements as it has places, a thread inserts only where there is room, and removes
-- only where there is an element.
pub in_bounds :
    {A : Type 0} (n : ℕ) (q : PcQueue A) (calls : ℕ → Pc A) (s : System A)
    → IsValid q
    → ((i : ℕ) → Begins (calls i))
    → Reach n (start q (contents q) calls) s
    → (s.queue.pcq_head < s.queue.pcq_capacity)
      × (s.queue.pcq_tail < s.queue.pcq_capacity)
      × (s.queue.pcq_current_size ≤ s.queue.pcq_capacity)
      × ((j : ℕ) (x : A)
          → s.pc j ≡ push_inserting x
          → s.queue.pcq_current_size < s.queue.pcq_capacity)
      × ((j : ℕ) → s.pc j ≡ pop_removing → 0 < s.queue.pcq_current_size)
in_bounds n q calls s v b r =
    let (w, o) = in_order n q calls s v b r in
    let ok = o.queue_ok in
    (
      rw ok.head_at
          (mod-lt (s.queue.pcq_tail + s.queue.pcq_current_size) (omega (arith, ok.tail_in))),
      ok.tail_in,
      ok.size_le,
      λ j x at_insert. ground (arith, ok.size_le, o.room j (ap needs_room at_insert)),
      λ j at_remove. ground (arith, o.item j (ap needs_item at_remove)),
    )
