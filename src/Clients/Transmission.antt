-- ===== src/Clients/Transmission.antt =====
-- A publisher, the broker and a subscriber together: publisher/pub.c, the sessions of
-- mbroker/mbroker.c and subscriber/sub.c, from the lines of an input to the lines printed.
use so_project.Base.{
  ℕ, zero, suc, ◌+◌, ◌<◌, Bool, true, false, none, some, List, [], ◌∷◌, Name, length,
}
use so_project.Base.Monad.{pure, ◌>>=◌, abort}
use so_project.Protocol.Requests.{message_length, PublisherRequest, WriteResult}
use so_project.Broker.Boxes.{Broker}
use so_project.Broker.Access.{B}
use so_project.Broker.Delivery.{Move, publish, deliver}
use so_project.Broker.Conversation.{conversation}
use so_project.Clients.Publisher.{publish_input}
use so_project.Clients.Subscriber.{ResponseRead, response, broken, Printed, subscriber_loop}

abbrev pub drain : ℕ → List Move
drain zero = []
drain (suc n) = deliver ∷ drain n

-- The requests in their order, with rounds of the subscriber in between as a schedule has them: `true`
-- is the publisher's turn. At the end the subscriber has a round for each request.
abbrev pub interleave : List Bool → ℕ → List PublisherRequest → List Move
interleave [] n [] = drain n
interleave [] n (r ∷ reqs) = publish r ∷ interleave [] n reqs
interleave (true ∷ turns) n [] = interleave turns n []
interleave (true ∷ turns) n (r ∷ reqs) = publish r ∷ interleave turns n reqs
interleave (false ∷ turns) n reqs = deliver ∷ interleave turns n reqs

-- Each response is read whole; then a SIGINT interrupts the read of another.
abbrev pub responses : List PublisherRequest → List (ResponseRead × Bool)
responses [] = (broken, true) ∷ []
responses (r ∷ rest) = (response r, false) ∷ responses rest

-- What the subscriber prints of the publisher's input.
unfoldable pub transmit :
    (ℕ → WriteResult) → WriteResult → PublisherRequest → Name → List Bool → List ℕ → B Printed
transmit write_pub write_sub p_req name turns input =
    elim (publish_input (suc (length input)) write_pub 0 p_req input) [
      | none ↦ abort
      | some (reqs, how) ↦ do
        sent ← conversation write_sub name (interleave turns (length reqs) reqs)
        pure (subscriber_loop 0 (responses sent))
    ]

-- The bytes of messages, each with its end.
abbrev size_of : List Name → ℕ
size_of [] = 0
size_of (l ∷ rest) = length l + 1 + size_of rest

-- Messages that fit in their arrays.
abbrev AreShort : List Name → Type 0
AreShort [] = Unit {0}
AreShort (l ∷ rest) = (length l < message_length) × AreShort rest
