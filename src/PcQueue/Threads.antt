-- ===== src/PcQueue/Threads.antt =====
-- The threads of producer-consumer/pcqueue.c, one operation on a lock at a time. Thread `i` runs one
-- call of `pcq_enqueue` or of `pcq_dequeue`; a thread that makes more calls is more threads.
use so_project.Base.{
  ℕ, ◌<◌, ◌≡◌, Bool, true, false, Option, none, some, List, [], ◌∷◌, ◌++◌, update, ◌==◌,
  if◌then◌else◌,
}
use so_project.PcQueue.{PcQueue, push, pop}

-- The five mutexes of a queue.
abbrev pub pcq_current_size_lock : ℕ
pcq_current_size_lock = 0

abbrev pcq_head_lock : ℕ
pcq_head_lock = 1

abbrev pcq_tail_lock : ℕ
pcq_tail_lock = 2

abbrev pcq_pusher_condvar_lock : ℕ
pcq_pusher_condvar_lock = 3

abbrev pub pcq_popper_condvar_lock : ℕ
pcq_popper_condvar_lock = 4

-- Where a call stands: `push_` in `pcq_enqueue` with its element, `pop_` in `pcq_dequeue`.
pub data Pc (A : Type 0) : Type 0 where
  push_begin push_entered push_testing push_full push_sleeping push_waiting push_woken push_ready
        push_inserting :
      A → Pc A
  push_inserted push_counted push_leaving push_signalling pushed : Pc A
  pop_begin pop_entered pop_testing pop_empty pop_sleeping pop_waiting pop_woken pop_ready
        pop_removing :
      Pc A
  pop_removed pop_counted pop_leaving pop_signalling popped : A → Pc A

-- The queue, the thread that holds each mutex, where each thread stands, and what was inserted and
-- removed so far, in order.
pub record System (A : Type 0) : Type 0 where
  pub queue : PcQueue A
  pub locks : ℕ → Option ℕ
  pub pc : ℕ → Pc A
  pub inserted : List A
  pub removed : List A

module _ {A : Type 0} where
  abbrev pub goto : ℕ → Pc A → System A → System A
  goto i p s = record s { pc = update s.pc i p }

  -- `mutex_lock`, and then `p`: a thread waits while another holds the mutex.
  abbrev pub acquire : ℕ → ℕ → Pc A → System A → Option (System A)
  acquire m i p s = elim (s.locks m) [
    | none ↦ some (goto i p (record s { locks = update s.locks m (some i) }))
    | some j ↦ none
  ]

  -- `mutex_unlock`, and then `p`
  abbrev pub release : ℕ → ℕ → Pc A → System A → Option (System A)
  release m i p s = some (goto i p (record s { locks = update s.locks m none }))

  -- `cond_broadcast` on each of the two condition variables
  abbrev pub is_waiting_popper : Pc A → Bool
  is_waiting_popper pop_waiting = true
  is_waiting_popper p = false

  abbrev pub waiting_pusher : Pc A → Option A
  waiting_pusher (push_waiting x) = some x
  waiting_pusher p = none

  abbrev pub wake_popper : Pc A → Pc A
  wake_popper p = if is_waiting_popper p then pop_woken else p

  abbrev pub wake_pusher : Pc A → Pc A
  wake_pusher p = elim (waiting_pusher p) [ none ↦ p | some x ↦ push_woken x ]

  abbrev pub broadcast : (Pc A → Pc A) → ℕ → Pc A → System A → Option (System A)
  broadcast wake i p s = some (goto i p (record s { pc = λ j. wake (s.pc j) }))

  abbrev insert : ℕ → A → System A → Option (System A)
  insert i x s = some (
      goto i push_inserted (record s { queue = push s.queue x; inserted = s.inserted ++ (x ∷ []) }))

  abbrev remove : ℕ → System A → Option (System A)
  remove i s =
      let (x, q) = pop s.queue in
      some (goto i (pop_removed x) (record s { queue = q; removed = s.removed ++ (x ∷ []) }))

  -- The next operation of thread `i`, which stands at `p`; `none` if it waits or has returned.
  unfoldable pub act_at : ℕ → Pc A → System A → Option (System A)
  act_at i (push_begin x) s = acquire pcq_pusher_condvar_lock i (push_entered x) s
  act_at i (push_entered x) s = acquire pcq_current_size_lock i (push_testing x) s
  act_at i (push_testing x) s = some (
      goto i
        (if s.queue.pcq_current_size == s.queue.pcq_capacity then push_full x else push_ready x) s)
  act_at i (push_full x) s = release pcq_current_size_lock i (push_sleeping x) s
  act_at i (push_sleeping x) s = release pcq_pusher_condvar_lock i (push_waiting x) s
  act_at i (push_waiting x) s = none
  act_at i (push_woken x) s = acquire pcq_pusher_condvar_lock i (push_entered x) s
  act_at i (push_ready x) s = acquire pcq_head_lock i (push_inserting x) s
  act_at i (push_inserting x) s = insert i x s
  act_at i push_inserted s = release pcq_head_lock i push_counted s
  act_at i push_counted s = release pcq_current_size_lock i push_leaving s
  act_at i push_leaving s = release pcq_pusher_condvar_lock i push_signalling s
  act_at i push_signalling s = broadcast wake_popper i pushed s
  act_at i pushed s = none
  act_at i pop_begin s = acquire pcq_popper_condvar_lock i pop_entered s
  act_at i pop_entered s = acquire pcq_current_size_lock i pop_testing s
  act_at i pop_testing s =
      some (goto i (if s.queue.pcq_current_size == 0 then pop_empty else pop_ready) s)
  act_at i pop_empty s = release pcq_current_size_lock i pop_sleeping s
  act_at i pop_sleeping s = release pcq_popper_condvar_lock i pop_waiting s
  act_at i pop_waiting s = none
  act_at i pop_woken s = acquire pcq_popper_condvar_lock i pop_entered s
  act_at i pop_ready s = acquire pcq_tail_lock i pop_removing s
  act_at i pop_removing s = remove i s
  act_at i (pop_removed x) s = release pcq_tail_lock i (pop_counted x) s
  act_at i (pop_counted x) s = release pcq_current_size_lock i (pop_leaving x) s
  act_at i (pop_leaving x) s = release pcq_popper_condvar_lock i (pop_signalling x) s
  act_at i (pop_signalling x) s = broadcast wake_pusher i (popped x) s
  act_at i (popped x) s = none

  abbrev pub act : ℕ → System A → Option (System A)
  act i s = act_at i (s.pc i) s

  -- A thread runs, or wakes up though nobody signals.
  pub data Step (n : ℕ) (s : System A) : System A → Type 0 where
    runs : (i : ℕ) {t : System A} → i < n → act i s ≡ some t → Step n s t
    spurious_pusher :
        (i : ℕ) (x : A) → i < n → s.pc i ≡ push_waiting x → Step n s (goto i (push_woken x) s)
    spurious_popper : (i : ℕ) → i < n → s.pc i ≡ pop_waiting → Step n s (goto i pop_woken s)

  -- A call before it begins.
  pub data Begins : Pc A → Type 0 where
    enqueues : (x : A) → Begins (push_begin x)
    dequeues : Begins pop_begin

  -- The threads before they begin, at the queue `q` that holds `initial`.
  abbrev pub start : PcQueue A → List A → (ℕ → Pc A) → System A
  start q initial calls = record {
    queue = q;
    locks = λ m. none;
    pc = calls;
    inserted = initial;
    removed = [];
  }

  pub data Reach (n : ℕ) (s : System A) : System A → Type 0 where
    stay : Reach n s s
    after : {t r : System A} → Reach n s t → Step n t r → Reach n s r
