-- ===== src/Broker/Sending.antt =====
-- A publisher's message in mbroker/mbroker.c, from its request to the box.
use so_project.Base.{
  ℕ, ◌+◌, ◌<◌, ◌≡◌, refl, sym, ◌≢◌, true, false, some, [], ◌∷◌, ◌++◌, Name, length, update_self,
  update-ne, lt→ltb, add_size,
}
use so_project.Base.Monad.{
  branch, on_index, pure-eq, Ends, Ends->>=, Ends-then, Ends-reads, Ends-modify, Ends-done,
}
use so_project.Tfs.Types.{DirEntry}
use so_project.Protocol.Memory.{field}
use so_project.Protocol.Requests.{message_length, PublisherRequest}
use so_project.Broker.Boxes.{Broker, set_box, write_message}
use so_project.Broker.Steps.{on_the_fs, on_fs-Lifted, lock_box-eq, unlock_box-eq, modify_box-eq}
use so_project.Broker.Publishing.{publish_message, publish_request, publish_read, request}
use so_project.Broker.Writing.{Ready, Appends, write_message-Appends}

-- The message is at the end of the box's file, and the box's size counts it and its zero.
pub record Sent (b : ℕ) (e : ℕ → DirEntry) (i k : ℕ) (message : Name) (s s' : Broker) : Type 0 where
  pub appended : Appends b e k (message ++ (0 ∷ [])) s.fs s'.fs
  pub box : s'.mbroker_boxes i ≡ record (s.mbroker_boxes i) {
    size = add_size (s.mbroker_boxes i).size (add_size (length message) 1);
    mutex = false;
  }
  pub others : (j : ℕ) → j ≢ i → s'.mbroker_boxes j ≡ s.mbroker_boxes j

module _ {b : ℕ} {e : ℕ → DirEntry} (i k : ℕ) (s : Broker)
    (unlocked : (s.mbroker_boxes i).mutex ≡ false) where
  publish_message-Sent :
      (message : Name)
      → Ready b e k (length message + 1) s.fs
      → Ends (λ r s'. (r ≡ true) × Sent b e i k message s s') (publish_message i k message s)
  unfolding publish_message on_index
  publish_message-Sent message ready =
      let box = s.mbroker_boxes i in
      let held = record box { mutex = true } in
      Ends-then _ _ s (lock_box-eq i s unlocked) (
        Ends->>= _ _ (set_box i held s)
          (on_fs-Lifted (write_message (some k) message) (set_box i held s)
            (write_message-Appends message s.fs ready))
          λ r t done. elim done [
            | on_the_fs fs' et (er, a) ↦
                let t' = record s { fs = fs' } in
                let box' = record held {
                  size = add_size held.size (add_size (length message) 1);
                } in
                rw (et, er)
                  (Ends-then _ _ (set_box i held t') (modify_box-eq i _ held t') (
                    Ends-then _ _ (set_box i box' t') (unlock_box-eq i box' t') (
                      Ends-done (pure-eq true _) (
                        refl,
                        record {
                          appended = a;
                          box = update_self s.mbroker_boxes i _;
                          others = λ j ne. update-ne s.mbroker_boxes i _ j (λ q. ne (sym q));
                        },
                      ))))
          ])

  -- A request whose message fits in its array, to a box that is in use.
  pub publish_read-Sent :
      (pub_r : PublisherRequest)
      → (s.mbroker_boxes i).used ≡ true
      → length (field message_length 0 pub_r.message) < message_length
      → Ready b e k (length (field message_length 0 pub_r.message) + 1) s.fs
      → Ends
          (λ r s'. (r ≡ true) × Sent b e i k (field message_length 0 pub_r.message) s s')
          (publish_read i k (λ t. t) (request pub_r) s)
  unfolding publish_read publish_request branch
  publish_read-Sent pub_r used fits ready = Ends-reads _ _ s (
      rw used (
        Ends-modify (λ t. t) _ s
          (rw (lt→ltb _ _ fits)
            (publish_message-Sent (field message_length 0 pub_r.message) ready))))
