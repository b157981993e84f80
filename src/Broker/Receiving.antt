-- ===== src/Broker/Receiving.antt =====
-- A message that a subscriber is sent in mbroker/mbroker.c, from the box to the response.
use so_project.Base.{
  ℕ, suc, ◌+◌, ◌-◌, ◌<◌, ◌≡◌, refl, ap, sym, ◌∙◌, ◌≢◌, true, false, Option, some, [], ◌∷◌, ◌++◌,
  Name, length, length-append, update_self, update-ne, leb, arith,
}
use so_project.Base.Monad.{
  pure, branch, pure-eq, Ends, Ends->>=, Ends-step, Ends-then, Ends-reads, Ends-modify, Ends-mono,
  Ends-done,
}
use so_project.Tfs.Types.{DirEntry}
use so_project.Protocol.Memory.{field, IsText}
use so_project.Protocol.Requests.{message_length, PublisherRequest, WriteResult}
use so_project.Protocol.Responses.{subscriber_response_init, subscriber_response_send}
use so_project.Protocol.RoundTrip.{subscriber_response_init-eq}
use so_project.Broker.Boxes.{Box, Broker, set_box, read_message}
use so_project.Broker.Steps.{on_the_fs, on_fs-Lifted, lock_box-eq, unlock_box-eq}
use so_project.Broker.Subscribing.{read_fuel, buffer_text, respond, forward, subscribe_turn}
use so_project.Broker.Reading.{Readable, HoldsHere, Passes, read_message-Passes}

-- The handle is past the message and its zero, and the boxes are as they were.
pub record Received (b : ℕ) (e : ℕ → DirEntry) (i j : ℕ) (message : Name) (s s' : Broker)
    : Type 0 where
  pub passed : Passes b e j (length message + 1) s.fs s'.fs
  pub box : s'.mbroker_boxes i ≡ record (s.mbroker_boxes i) { mutex = false }
  pub others : (k : ℕ) → k ≢ i → s'.mbroker_boxes k ≡ s.mbroker_boxes k

-- What a round returns: the bytes of the message and its zero, and a response with the message.
abbrev pub Forwarded : Name → Option (ℕ × PublisherRequest) → Type 0
Forwarded message r =
    (resp : PublisherRequest) × (r ≡ some (length message + 1, resp))
    × (field message_length 0 resp.message ≡ message)

buffer_text-append : (message : Name) → buffer_text (message ++ (0 ∷ [])) ≡ message
buffer_text-append [] = refl
buffer_text-append (c ∷ message) =
    let same : suc (length (message ++ (0 ∷ []))) - 1 ≡ suc (length (message ++ (0 ∷ [])) - 1) =
      omega (arith, length-append message (0 ∷ [])) in
    rw same (ap (◌∷◌ c) (buffer_text-append message))

respond-eq :
    (write : WriteResult) (message : Name) (resp : PublisherRequest) (s : Broker)
    → subscriber_response_init message ≡ some resp
    → subscriber_response_send write ≡ 0
    → respond write message s ≡ some (some resp, s)
unfolding respond pure
respond-eq write message resp s made sent = rw (made, sent, respond) refl

module _ {b : ℕ} {e : ℕ → DirEntry} (i j : ℕ) (s : Broker) (message : Name) (text : IsText message)
    (fits : length message < message_length) (write : WriteResult)
    (sent : subscriber_response_send write ≡ 0) where
  forward-Received :
      (box : Box)
      → box.used ≡ true
      → Readable b e j s.fs
      → HoldsHere j (message ++ (0 ∷ [])) s.fs
      → length message < read_fuel s
      → Ends
          (λ r s'.
            Forwarded message r
            × Passes b e j (length message + 1) s.fs s'.fs
            × (s' ≡ set_box i (record box { mutex = false }) (record s { fs = s'.fs })))
          (forward i j write (set_box i box s))
  unfolding forward branch
  forward-Received box used readable holds fuel =
      let (resp, made, back) = subscriber_response_init-eq message text fits in
      Ends-reads _ _ (set_box i box s) (
        Ends->>= _ _ (set_box i box s)
          (on_fs-Lifted (read_message (read_fuel s) (some j)) (set_box i box s)
            (read_message-Passes message (read_fuel s) s.fs readable text holds fuel))
          λ r t done. elim done [
            | on_the_fs fs' et (er, m) ↦
                let t' = record s { fs = fs' } in
                let in_use : ((set_box i box t').mbroker_boxes i).used ≡ true =
                  ap (λ (a : Box). a.used) (update_self s.mbroker_boxes i box) ∙ used in
                rw (et, er)
                  (Ends-reads _ _ (set_box i box t') (
                    rw (in_use, buffer_text-append message)
                      (Ends-step _ _ (set_box i box t')
                        (respond-eq write message resp (set_box i box t') made sent)
                        (Ends-then _ _ (set_box i box t') (unlock_box-eq i box t') (
                          Ends-done (pure-eq _ _) (
                            (resp, ap (λ x. some (x, resp)) (length-append message (0 ∷ [])), back),
                            m,
                            refl,
                          ))))))
          ])

  -- A round with something to read, while no other thread runs.
  pub subscribe_turn-Received :
      (total_read : ℕ) (woken : Broker → Broker)
      → (s.mbroker_boxes i).mutex ≡ false
      → (s.mbroker_boxes i).used ≡ true
      → total_read < (s.mbroker_boxes i).size
      → Readable b e j s.fs
      → HoldsHere j (message ++ (0 ∷ [])) s.fs
      → length message < read_fuel s
      → Ends
          (λ r s'. Forwarded message r × Received b e i j message s s')
          (subscribe_turn i j total_read
            (record { meanwhile = λ t. t; woken = woken; write = write })
            s)
  unfolding subscribe_turn branch
  subscribe_turn-Received total_read woken unlocked used more readable holds fuel =
      let box = s.mbroker_boxes i in
      let held = record box { mutex = true } in
      let enough : leb ((set_box i held s).mbroker_boxes i).size total_read ≡ false =
        ap (λ (a : Box). leb a.size total_read) (update_self s.mbroker_boxes i held)
        ∙ ground arith in
      Ends-modify (λ t. t) _ s
        (Ends-then _ _ s (lock_box-eq i s unlocked) (
          Ends-reads _ _ (set_box i held s) (
            rw enough (
              Ends-then _ _ (set_box i held s) (pure-eq tt _) (
                Ends-mono (forward-Received held used readable holds fuel)
                  (λ r s' (same, passed, es). (
                    same,
                    record {
                      passed = passed;
                      box =
                          ap (λ (t : Broker). t.mbroker_boxes i) es
                          ∙ update_self s.mbroker_boxes i _;
                      others = λ k ne.
                          ap (λ (t : Broker). t.mbroker_boxes k) es
                          ∙ update-ne s.mbroker_boxes i _ k (λ q. ne (sym q));
                    },
                  )))))))
