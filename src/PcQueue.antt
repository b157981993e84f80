-- ===== src/PcQueue.antt =====
-- The bounded queue of producer-consumer/pcqueue.c. A call runs alone between taking its locks and
-- letting them go: `none` is a call that has to wait on its condition variable.
use so_project.Base.{ℕ, suc, ◌+◌, ◌-◌, ◌%◌, Option, none, some, update, ◌==◌, if◌then◌else◌}
pub mod Fifo
pub mod Threads
pub mod Exclusion
pub mod Needs
pub mod Order
pub mod Wakeup
mod Witnesses

-- `pc_queue_t` without its locks.
pub record PcQueue (A : Type 0) : Type 0 where
  pub pcq_buffer : ℕ → A
  pub pcq_capacity : ℕ
  pub pcq_current_size : ℕ
  pub pcq_head : ℕ
  pub pcq_tail : ℕ

-- The first argument is what `malloc` returns, `none` for a null pointer.
unfoldable pub pcq_create : {A : Type 0} → Option (ℕ → A) → ℕ → Option (PcQueue A)
pcq_create none capacity = none
pcq_create (some buffer) capacity = some (record {
  pcq_buffer = buffer;
  pcq_capacity = capacity;
  pcq_current_size = 0;
  pcq_head = 0;
  pcq_tail = 0;
})

-- The buffer is given up with the locks; the result is 0.
unfoldable pub pcq_destroy : {A : Type 0} → PcQueue A → ℕ
pcq_destroy queue = 0

-- The insertion, at the head.
abbrev pub push : {A : Type 0} → PcQueue A → A → PcQueue A
push queue elem = record queue {
  pcq_current_size = queue.pcq_current_size + 1;
  pcq_buffer = update queue.pcq_buffer queue.pcq_head elem;
  pcq_head = (queue.pcq_head + 1) % queue.pcq_capacity;
}

unfoldable pub pcq_enqueue : {A : Type 0} → PcQueue A → A → Option (PcQueue A)
pcq_enqueue queue elem =
    if queue.pcq_current_size == queue.pcq_capacity then none else some (push queue elem)

-- The removal, at the tail.
abbrev pub pop : {A : Type 0} → PcQueue A → A × PcQueue A
pop queue = (
  queue.pcq_buffer queue.pcq_tail,
  record queue {
    pcq_current_size = queue.pcq_current_size - 1;
    pcq_tail = (queue.pcq_tail + 1) % queue.pcq_capacity;
  },
)

unfoldable pub pcq_dequeue : {A : Type 0} → PcQueue A → Option (A × PcQueue A)
pcq_dequeue queue = if queue.pcq_current_size == 0 then none else some (pop queue)
