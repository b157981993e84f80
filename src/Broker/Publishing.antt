-- ===== src/Broker/Publishing.antt =====
-- `handle_publisher` of mbroker/mbroker.c. Whether the pipe opens, and what `read` returns on it, are
-- parameters; so is what the other threads do while this one holds no mutex.
use so_project.Base.{
  ℕ, Bool, true, false, Option, none, some, List, [], ◌∷◌, ◌==◌, ltb, add_size, sub_size, length,
  Name,
}
use so_project.Base.Monad.{pure, ◌>>=◌, ◌>>◌, reads, modify, abort, branch, on_index}
use so_project.Tfs.Operations.{tfs_o_append, tfs_open, tfs_close}
use so_project.Protocol.Memory.{field}
use so_project.Protocol.Requests.{message_length, PublisherRequest}
use so_project.Broker.Boxes.{Broker, get_box, write_message}
use so_project.Broker.Access.{B, on_fs, read_name, modify_box, lock_box, unlock_box}

-- What `read` returns: 0, another count that is not the request's size or an error, or a request.
pub data ReadResult : Type 0 where
  end_of_file partial : ReadResult
  request : PublisherRequest → ReadResult

-- One round of the loop: what the other threads do before the read returns, the read, and what they
-- do between the test of the box and its lock.
pub record Arrival : Type 0 where
  pub meanwhile : Broker → Broker
  pub read : ReadResult
  pub before_lock : Broker → Broker

-- The session up to its loop: the box and the open file, or `none` where it returns -1.
unfoldable pub begin_publisher : Bool → Name → B (Option (ℕ × ℕ))
begin_publisher opened box_name =
    branch opened
      (do
        box ← reads (get_box box_name)
        on_index box (pure none) (λ i. do
          lock_box i
          n ← reads (λ s. (s.mbroker_boxes i).n_publishers)
          name ← read_name i
          branch (n == 1) (do unlock_box i; pure none)
              (do
                box_fd ← on_fs (tfs_open (some name) tfs_o_append)
                on_index box_fd (do unlock_box i; pure none)
                    (λ fd. do
                      modify_box i (λ b. record b { n_publishers = add_size b.n_publishers 1 })
                      unlock_box i
                      pure (some (i, fd))))))
      (pure none)

-- The message is written to the box, whose size grows by it and its end. The result is whether the
-- loop goes on.
unfoldable pub publish_message : ℕ → ℕ → Name → B Bool
publish_message i fd message = do
  lock_box i
  ret ← on_fs (write_message (some fd) message)
  on_index ret (do unlock_box i; pure false)
      (λ ret. do
        modify_box i (λ b. record b { size = add_size b.size (add_size ret 1) })
        unlock_box i
        pure true)

-- A request's message is its characters up to a zero. Without one `strlen` leaves the array.
unfoldable pub publish_request : ℕ → ℕ → PublisherRequest → B Bool
publish_request i fd pub_r =
    let message = field message_length 0 pub_r.message in
    branch (ltb (length message) message_length) (publish_message i fd message) abort

unfoldable pub publish_read : ℕ → ℕ → (Broker → Broker) → ReadResult → B Bool
publish_read i fd before_lock end_of_file = pure false
publish_read i fd before_lock partial = pure false
publish_read i fd before_lock (request pub_r) = do
  used ← reads (λ s. (s.mbroker_boxes i).used)
  branch used (do modify before_lock; publish_request i fd pub_r) (pure false)

-- `while (1)`. After the arrivals the pipe is closed.
unfoldable pub publish_loop : ℕ → ℕ → List Arrival → B (Unit {0})
publish_loop i fd [] = pure tt
publish_loop i fd (a ∷ rest) = do
  modify a.meanwhile
  more ← publish_read i fd a.before_lock a.read
  branch more (publish_loop i fd rest) (pure tt)

-- The count of publishers wraps below 0.
unfoldable pub end_publisher : ℕ → ℕ → B (Unit {0})
end_publisher i fd = do
  lock_box i
  modify_box i (λ b. record b { n_publishers = sub_size b.n_publishers 1 })
  unlock_box i
  on_fs (tfs_close (some fd))
  pure tt

-- The result is whether 0 is returned.
unfoldable pub handle_publisher : Bool → Name → List Arrival → B Bool
handle_publisher opened box_name arrivals = do
  began ← begin_publisher opened box_name
  elim began [
    | none ↦ pure false
    | some (i, fd) ↦ do publish_loop i fd arrivals; end_publisher i fd; pure true
  ]
