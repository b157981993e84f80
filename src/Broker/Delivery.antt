-- ===== src/Broker/Delivery.antt =====
-- `handle_publisher` and `handle_subscriber` of mbroker/mbroker.c at work on one box: the rounds of
-- their loops, one after the other in any order.
use so_project.Base.{
  ℕ, zero, suc, ◌+◌, ◌-◌, ◌<◌, ◌≡◌, refl, true, false, Bool-cases, none, some, List, [], ◌∷◌, ◌++◌,
  Name, length, length-append, leb, add_size, inl, inr, arith, ◌==◌, c_string,
}
use so_project.Base.Monad.{
  pure, ◌>>=◌, reads, branch, pure-eq, Ends, Ends->>=, Ends-reads, Ends-done,
}
use so_project.Tfs.Types.{DirEntry}
use so_project.Protocol.Memory.{char_at, field, IsText}
use so_project.Protocol.Requests.{message_length, PublisherRequest, WriteResult}
use so_project.Protocol.Responses.{subscriber_response_send}
use so_project.Broker.Boxes.{Broker}
use so_project.Broker.Access.{B}
use so_project.Broker.Publishing.{publish_read, request}
use so_project.Broker.Subscribing.{subscribe_turn}
use so_project.Broker.Writing.{Ready-less}
use so_project.Broker.Reading.{Readable}
use so_project.Broker.Sending.{publish_read-Sent}
use so_project.Broker.Receiving.{subscribe_turn-Received}
use so_project.Broker.Pending.{encode, Linked, Holds-first, Linked-Sent, Linked-Received}

-- One round of the publisher's loop, with a request, or one of the subscriber's.
pub data Move : Type 0 where
  publish : PublisherRequest → Move
  deliver : Move

abbrev pub text_of : PublisherRequest → Name
text_of r = field message_length 0 r.message

-- The responses that are written, for rounds in the order of a schedule. A subscriber that has read
-- everything waits, and is not woken but by a message.
unfoldable pub exchange : WriteResult → ℕ → ℕ → ℕ → ℕ → List Move → B (List PublisherRequest)
exchange write i k j total_read [] = pure []
exchange write i k j total_read (publish r ∷ rest) = do
  more ← publish_read i k (λ s. s) (request r)
  branch more (exchange write i k j total_read rest) (pure [])
exchange write i k j total_read (deliver ∷ rest) = do
  size ← reads (λ s. (s.mbroker_boxes i).size)
  branch (leb size total_read) (exchange write i k j total_read rest) (do
    r ← subscribe_turn i j total_read (record { meanwhile = λ s. s; woken = λ s. s; write = write })
    elim r [
      | none ↦ pure []
      | some (n, sub_resp) ↦ do
        more ← exchange write i k j (add_size total_read n) rest
        pure (sub_resp ∷ more)
    ])

-- The bytes that a schedule writes.
abbrev pub bytes_of : List Move → ℕ
bytes_of [] = 0
bytes_of (publish r ∷ rest) = length (text_of r) + 1 + bytes_of rest
bytes_of (deliver ∷ rest) = bytes_of rest

-- Every message ends inside its array.
abbrev pub AreTerminated : List Move → Type 0
AreTerminated [] = Unit {0}
AreTerminated (publish r ∷ rest) = (length (text_of r) < message_length) × AreTerminated rest
AreTerminated (deliver ∷ rest) = AreTerminated rest

-- The same schedule on a queue of messages, first in, first out.
abbrev pub deliveries : List Name → List Move → List Name
deliveries q [] = []
deliveries q (publish r ∷ rest) = deliveries (q ++ (text_of r ∷ [])) rest
deliveries [] (deliver ∷ rest) = deliveries [] rest
deliveries (m ∷ q) (deliver ∷ rest) = m ∷ deliveries q rest

abbrev pub texts_of : List PublisherRequest → List Name
texts_of [] = []
texts_of (r ∷ rest) = text_of r ∷ texts_of rest

c_string-IsText : (n : ℕ) (m : ℕ → ℕ) → IsText (c_string n m)
unfolding c_string char_at
c_string-IsText zero m k lt = absurd (omega arith)
c_string-IsText (suc n) m k lt = elim (Bool-cases (m 0 == 0)) [
  | inl z ↦ absurd (ground arith)
  | inr z ↦ elim (Bool-cases (k == 0)) [
    | inl first ↦ ground arith
    | inr later ↦
        let shorter : k < suc (length (c_string n (λ x. m (x + 1)))) = rw z at lt in
        rw (z, later) (c_string-IsText n (λ x. m (x + 1)) (k - 1) (ground arith))
  ]
]

module _ {b : ℕ} {e : ℕ → DirEntry} (write : WriteResult)
    (sent : subscriber_response_send write ≡ 0) (i k j : ℕ) where
  pub exchange-deliveries :
      (moves : List Move) (total : ℕ) (q : List Name) (s : Broker)
      → Linked b e i k j (bytes_of moves) total q s
      → AreTerminated moves
      → Ends (λ r s'. texts_of r ≡ deliveries q moves) (exchange write i k j total moves s)
  unfolding exchange branch
  exchange-deliveries [] total q s v t = Ends-done (pure-eq [] s) refl
  exchange-deliveries (publish r ∷ rest) total q s v (lt, t) =
      Ends->>= _ _ s
        (publish_read-Sent i k s v.unlocked r v.used lt (Ready-less (omega arith) v.ready))
        λ ok s' (eo, p). rw eo (
          exchange-deliveries rest total (q ++ (text_of r ∷ [])) s'
            (Linked-Sent refl (c_string-IsText message_length _) lt v p) t)
  exchange-deliveries (deliver ∷ rest) total [] s v t =
      let size_is = v.counted in
      let so_far = v.read_so_far in
      let upto = v.up_to_end in
      let none_left : leb (s.mbroker_boxes i).size total ≡ true = ground arith in
      Ends-reads _ _ s (rw none_left (exchange-deliveries rest total [] s v t))
  exchange-deliveries (deliver ∷ rest) total (m ∷ q) s v t =
      let size_is = v.counted in
      let so_far = v.read_so_far in
      let upto = v.up_to_end in
      let fits = v.ready.room in
      let at_end = v.ready.at_end in
      let len = length-append m (0 ∷ []) in
      let all = length-append (m ++ (0 ∷ [])) (encode q) in
      let some_left : leb (s.mbroker_boxes i).size total ≡ false = ground arith in
      let readable : Readable b e j s.fs = record {
        valid = v.ready.valid;
        in_table = v.in_table;
        opened = v.opened;
        offset_le = let within = v.pending.within in omega arith;
      } in
      Ends-reads _ _ s (
        rw some_left (
          Ends->>= _ _ s
            (subscribe_turn-Received i j s m v.texts.0 v.texts.1 write sent total (λ t. t)
              v.unlocked v.used (omega arith) readable (Holds-first (encode q) v.pending)
              (omega arith))
            λ r s' ((resp, er, back), p). rw er (
              Ends->>= _ _ s' (exchange-deliveries rest _ q s' (Linked-Received v p) t)
                λ more u same. Ends-done (pure-eq _ u) (rw (back, same) refl))))
