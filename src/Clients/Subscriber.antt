-- ===== src/Clients/Subscriber.antt =====
-- subscriber/sub.c: the messages that are printed.
use so_project.Base.{ℕ, ◌+◌, Bool, true, false, Option, none, some, List, [], ◌∷◌, Name}
use so_project.Protocol.Memory.{field}
use so_project.Protocol.Requests.{message_length, PublisherRequest}

-- What `read` gives: 0, an error or a part of a response, or a response.
pub data ResponseRead : Type 0 where
  closed broken : ResponseRead
  response : PublisherRequest → ResponseRead

-- How the loop stops: the pipe is closed, a read is bad and the process fails, a SIGINT, or not yet.
pub data SubscriberEnd : Type 0 where
  pipe_closed failed interrupted waiting : SubscriberEnd

-- What is printed: the messages, then their number, after the loop. A process that fails or is still
-- in its loop has not printed the number.
pub record Printed : Type 0 where
  pub messages : List Name
  pub nr_messages : Option ℕ
  pub how : SubscriberEnd

-- `fprintf(stdout, "%d\n", nr_messages);`
abbrev after_loop : ℕ → SubscriberEnd → Option ℕ
after_loop n failed = none
after_loop n waiting = none
after_loop n pipe_closed = some n
after_loop n interrupted = some n

abbrev stop : ℕ → SubscriberEnd → Printed
stop n how = record { messages = []; nr_messages = after_loop n how; how = how }

-- A message is printed up to its zero.
abbrev and_print : PublisherRequest → Printed → Printed
and_print resp p = record p { messages = field message_length 0 resp.message ∷ p.messages }

-- The loop, for the results of `read` and whether SIGINT has come by then.
unfoldable pub subscriber_loop : ℕ → List (ResponseRead × Bool) → Printed
subscriber_loop n [] = stop n waiting
subscriber_loop n ((closed, interrupt_var) ∷ rest) = stop n pipe_closed
subscriber_loop n ((broken, false) ∷ rest) = stop n failed
subscriber_loop n ((broken, true) ∷ rest) = stop n interrupted
subscriber_loop n ((response resp, true) ∷ rest) = stop n interrupted
subscriber_loop n ((response resp, false) ∷ rest) = and_print resp (subscriber_loop (n + 1) rest)
