-- ===== src/PcQueue/Witnesses.antt =====
-- The theorems on the queue at a queue of two places.
use so_project.Base.{
  ℕ, ◌≤◌, ◌==◌, inl, inr, Bool-cases, update, true, false, ◌+◌, ◌<◌, ◌≡◌, refl, ◌⊎◌, none, some, [],
  ◌∷◌, ◌++◌, length, arith,
}
use so_project.PcQueue.{PcQueue, pcq_enqueue, pcq_dequeue}
use so_project.PcQueue.Threads.{
  push_inserting, pop_removing, pop_entered, System, goto, act, act_at, start, Begins, enqueues,
  dequeues, Reach, stay, after, runs, pcq_popper_condvar_lock, pop_waiting,
}
use so_project.PcQueue.Exclusion.{holds, mutual_exclusion}
use so_project.PcQueue.Order.{fifo_order, in_bounds}
use so_project.PcQueue.Wakeup.{two_calls, empty_queue, lost_wakeup}
use so_project.PcQueue.Fifo.{contents, IsValid, pcq_enqueue_lem, pcq_dequeue_lem}

-- One element, at the last place: the head has gone round.
abbrev one_element : PcQueue ℕ
one_element = record {
  pcq_buffer = λ k. k + 7;
  pcq_capacity = 2;
  pcq_current_size = 1;
  pcq_head = 0;
  pcq_tail = 1;
}

one_element-IsValid : IsValid one_element
one_element-IsValid = record { tail_in = omega arith; size_le = omega arith; head_at = refl }

pcq_enqueue_lem_example :
    ((length (contents one_element) ≡ 2) × (pcq_enqueue one_element 5 ≡ none))
    ⊎ ((length (contents one_element) < 2)
        × ((q' : PcQueue ℕ) × (pcq_enqueue one_element 5 ≡ some q')
            × IsValid q'
            × (q'.pcq_capacity ≡ 2)
            × (contents q' ≡ contents one_element ++ (5 ∷ []))))
pcq_enqueue_lem_example = pcq_enqueue_lem one_element one_element-IsValid 5

pcq_dequeue_lem_example :
    ((contents one_element ≡ []) × (pcq_dequeue one_element ≡ none))
    ⊎ ((x : ℕ) × (q' : PcQueue ℕ) × (pcq_dequeue one_element ≡ some (x, q'))
        × IsValid q'
        × (q'.pcq_capacity ≡ 2)
        × (contents one_element ≡ x ∷ contents q'))
pcq_dequeue_lem_example = pcq_dequeue_lem one_element one_element-IsValid

-- Thread 0 has called `pcq_dequeue` on a queue of one element, and holds its first mutex.
abbrev entered : System ℕ
entered = goto 0 pop_entered (record (start one_element (8 ∷ []) (two_calls 5)) {
  locks = update (λ m. none) pcq_popper_condvar_lock (some 0);
})

entered-Reach : Reach 2 (start one_element (contents one_element) (two_calls 5)) entered
unfolding act_at
entered-Reach = after stay (runs 0 (omega arith) refl)

two_calls-Begins : (i : ℕ) → Begins {A = ℕ} (two_calls 5 i)
two_calls-Begins i = elim (Bool-cases (i == 0)) [
  | inl zeroth ↦ rw zeroth dequeues
  | inr other ↦ rw other (enqueues 5)
]

entered-holds : holds pcq_popper_condvar_lock (entered.pc 0) ≡ true
unfolding holds
entered-holds = refl

mutual_exclusion_example : holds pcq_popper_condvar_lock (entered.pc 1) ≡ false
mutual_exclusion_example =
    mutual_exclusion 2 one_element (contents one_element) (two_calls 5) entered two_calls-Begins
      entered-Reach pcq_popper_condvar_lock 0 1 (omega arith) entered-holds

fifo_order_example :
    IsValid entered.queue × (entered.removed ++ contents entered.queue ≡ entered.inserted)
fifo_order_example =
    fifo_order 2 one_element (two_calls 5) entered one_element-IsValid two_calls-Begins
      entered-Reach

lost_wakeup_example :
    (s : System ℕ) × Reach 2 (start (empty_queue (λ k. k) 4) [] (two_calls 5)) s
    × (s.pc 0 ≡ pop_waiting)
    × (contents s.queue ≡ 5 ∷ [])
    × ((i : ℕ) → i < 2 → act i s ≡ none)
lost_wakeup_example = lost_wakeup (λ k. k) 4 5 (omega arith)

in_bounds_example :
    (entered.queue.pcq_head < entered.queue.pcq_capacity)
    × (entered.queue.pcq_tail < entered.queue.pcq_capacity)
    × (entered.queue.pcq_current_size ≤ entered.queue.pcq_capacity)
    × ((j : ℕ) (x : ℕ)
        → entered.pc j ≡ push_inserting x
        → entered.queue.pcq_current_size < entered.queue.pcq_capacity)
    × ((j : ℕ) → entered.pc j ≡ pop_removing → 0 < entered.queue.pcq_current_size)
in_bounds_example =
    in_bounds 2 one_element (two_calls 5) entered one_element-IsValid two_calls-Begins entered-Reach
