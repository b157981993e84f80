-- ===== src/Broker/Subscribing.antt =====
-- `handle_subscriber` of mbroker/mbroker.c. Whether the pipe opens, and what `write` returns on it,
-- are parameters; so is what the other threads do while this one holds no mutex.
use so_project.Base.{
  ℕ, ◌+◌, ◌-◌, Bool, true, false, Option, none, some, List, [], ◌∷◌, ◌==◌, leb, add_size, sub_size,
  length, take, Name, if◌then◌else◌,
}
use so_project.Base.Monad.{pure, ◌>>=◌, ◌>>◌, reads, modify, abort, branch, on_index}
use so_project.Tfs.Operations.{tfs_open, tfs_close}
use so_project.Protocol.Requests.{PublisherRequest, WriteResult}
use so_project.Protocol.Responses.{subscriber_response_init, subscriber_response_send}
use so_project.Broker.Boxes.{Broker, get_box, read_message}
use so_project.Broker.Access.{B, on_fs, read_name, modify_box, lock_box, unlock_box}

-- One round of the loop: what the other threads do before it takes the mutex and, when it waits,
-- before it wakes; then the result of `write`.
pub record Turn : Type 0 where
  pub meanwhile : Broker → Broker
  pub woken : Broker → Broker
  pub write : WriteResult

-- The session up to its loop: the box and the open file, or `none` where it returns -1.
unfoldable pub begin_subscriber : Bool → Name → B (Option (ℕ × ℕ))
begin_subscriber opened box_name =
    branch opened
      (do
        box ← reads (get_box box_name)
        on_index box (pure none) (λ i. do
          lock_box i
          name ← read_name i
          box_fd ← on_fs (tfs_open (some name) 0)
          on_index box_fd (do unlock_box i; pure none)
              (λ fd. do
                modify_box i (λ b. record b { n_subscribers = add_size b.n_subscribers 1 })
                unlock_box i
                pure (some (i, fd)))))
      (pure none)

-- `cond_wait(&box->condition, &box->mutex)`: the mutex is let go, and taken again.
unfoldable pub cond_wait : ℕ → (Broker → Broker) → B (Unit {0})
cond_wait i woken = do unlock_box i; modify woken; lock_box i

-- A file is at most a block long, and every read of `read_message` but the last takes a byte of it.
abbrev pub read_fuel : Broker → ℕ
read_fuel s = s.fs.fs_params.block_size + 1

-- `BUFF` as a string, after `read_message`.
abbrev pub buffer_text : List ℕ → Name
buffer_text buff = take (length buff - 1) buff

-- The response with the message, if `write` takes all of it; the mutex is held.
unfoldable pub respond : WriteResult → Name → B (Option PublisherRequest)
respond write message = elim (subscriber_response_init message) [
  | none ↦ abort
  | some sub_resp ↦ pure (if subscriber_response_send write == 0 then some sub_resp else none)
]

-- One message is read and sent. The result is the bytes read and the response, or `none` where the
-- loop ends, the mutex held.
unfoldable pub forward : ℕ → ℕ → WriteResult → B (Option (ℕ × PublisherRequest))
forward i fd write = do
  fuel ← reads read_fuel
  buff ← on_fs (read_message fuel (some fd))
  used ← reads (λ s. (s.mbroker_boxes i).used)
  elim buff [
    | none ↦ pure none
    | some buff ↦
        branch used
          (do
            sent ← respond write (buffer_text buff)
            elim sent [
              | none ↦ pure none
              | some sub_resp ↦ do unlock_box i; pure (some (length buff, sub_resp))
            ])
          (pure none)
  ]

unfoldable pub subscribe_turn : ℕ → ℕ → ℕ → Turn → B (Option (ℕ × PublisherRequest))
subscribe_turn i fd total_read turn = do
  modify turn.meanwhile
  lock_box i
  size ← reads (λ s. (s.mbroker_boxes i).size)
  branch (leb size total_read) (cond_wait i turn.woken) (pure tt)
  forward i fd turn.write

-- The first rounds of `while (1)`: the responses that are sent, and whether the loop has ended.
unfoldable pub subscribe_loop : ℕ → ℕ → ℕ → List Turn → B (List PublisherRequest × Bool)
subscribe_loop i fd total_read [] = pure ([], false)
subscribe_loop i fd total_read (turn ∷ rest) = do
  r ← subscribe_turn i fd total_read turn
  elim r [
    | none ↦ pure ([], true)
    | some (n, sub_resp) ↦ do
      more ← subscribe_loop i fd (add_size total_read n) rest
      pure (sub_resp ∷ more.0, more.1)
  ]

-- The mutex is held.
unfoldable pub end_subscriber : ℕ → ℕ → B (Unit {0})
end_subscriber i fd = do
  modify_box i (λ b. record b { n_subscribers = sub_size b.n_subscribers 1 })
  on_fs (tfs_close (some fd))
  unlock_box i

-- What the handler has done: it has returned -1, or it has sent responses and still runs, or has
-- returned 0.
pub data SubscriberOutcome : Type 0 where
  refused : SubscriberOutcome
  running finished : List PublisherRequest → SubscriberOutcome

unfoldable pub handle_subscriber : Bool → Name → List Turn → B SubscriberOutcome
handle_subscriber opened box_name turns = do
  began ← begin_subscriber opened box_name
  elim began [
    | none ↦ pure refused
    | some (i, fd) ↦ do
      r ← subscribe_loop i fd 0 turns
      branch r.1 (do end_subscriber i fd; pure (finished r.0)) (pure (running r.0))
  ]
