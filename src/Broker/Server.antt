-- ===== src/Broker/Server.antt =====
-- The threads of mbroker/mbroker.c: `main`, the workers, and `requests_handler`. System calls are
-- given by their results.
use so_project.Base.{
  ℕ, Bool, true, false, ◌&&◌, ◌||◌, Option, none, some, List, ◌==◌, if◌then◌else◌,
}
use so_project.Tfs.State.{Malloc, Memory, initialized}
use so_project.Tfs.Operations.{tfs_destroy}
use so_project.PcQueue.{PcQueue, pcq_create, pcq_enqueue, pcq_dequeue}
use so_project.Protocol.Memory.{field}
use so_project.Protocol.Requests.{box_name_length, WriteResult}
use so_project.Broker.Boxes.{Box, Broker}
use so_project.Broker.Init.{init_mbroker}
use so_project.Broker.Publishing.{Arrival, handle_publisher}
use so_project.Broker.Subscribing.{
  Turn, SubscriberOutcome, refused, running, finished, handle_subscriber,
}
use so_project.Broker.Sessions.{Session, handle_manager, handle_list}

-- `registration_request_t`, its 289 bytes.
abbrev pub Registration : Type 0
Registration = ℕ → ℕ

-- The other end of a session: whether its pipe opens, what `write` gives on it, and what comes in
-- the rounds of a publisher's or a subscriber's session.
pub record Client : Type 0 where
  pub opened : Bool
  pub write : ℕ → WriteResult
  pub arrivals : List Arrival
  pub turns : List Turn

-- A handler has returned, 0 or not, or still runs.
pub data Outcome : Type 0 where
  returned : Bool → Outcome
  still_running : Outcome

abbrev outcome_of : SubscriberOutcome → Outcome
outcome_of refused = returned false
outcome_of (running sent) = still_running
outcome_of (finished sent) = returned true

abbrev publisher_done : Session → Option (Bool × Broker) → Option (Outcome × Session)
publisher_done s none = none
publisher_done s (some (ret, b)) = some (returned ret, record s { broker = b })

abbrev subscriber_done : Session → Option (SubscriberOutcome × Broker) → Option (Outcome × Session)
subscriber_done s none = none
subscriber_done s (some (r, b)) = some (outcome_of r, record s { broker = b })

unfoldable pub requests_handler : Client → Registration → Session → Option (Outcome × Session)
requests_handler client req s =
    let op_code = req 0 in
    let box_name = field box_name_length 257 req in
    if op_code == 1
    then publisher_done s (handle_publisher client.opened box_name client.arrivals s.broker)
    else if op_code == 2
    then subscriber_done s (handle_subscriber client.opened box_name client.turns s.broker)
    else if op_code == 3 || op_code == 5
    then elim (handle_manager client.opened (client.write 0) op_code box_name s) [
      | none ↦ none
      | some ((ret, reply), s') ↦ some (returned ret, s')
    ]
    else if op_code == 7
    then elim (handle_list client.opened client.write s) [
      | none ↦ none
      | some (ret, sent) ↦ some (returned ret, s)
    ]
    else some (returned false, s)

-- The queue of requests, and what the handlers work on.
pub record Server : Type 0 where
  pub requests_queue : PcQueue Registration
  pub session : Session

-- One round of `worker_thread_fn`: `none` when it waits for a request, or in the handler.
unfoldable pub worker_round : Client → Server → Option (Outcome × Server)
worker_round client s = elim (pcq_dequeue s.requests_queue) [
  | none ↦ none
  | some (req, queue) ↦ elim (requests_handler client req s.session) [
    | none ↦ none
    | some (ret, session) ↦ some (ret, record { requests_queue = queue; session = session })
  ]
]

-- What `read` gives on the registration pipe: 0, an error or a part of a request, or a request.
pub data RegistrationRead : Type 0 where
  closed broken : RegistrationRead
  whole : Registration → RegistrationRead

-- A round of the main loop goes on, waits for room in the queue, or ends the process.
pub data MainRound : Type 0 where
  next : PcQueue Registration → MainRound
  waits : MainRound
  exits : MainRound

abbrev enqueued : Option (PcQueue Registration) → MainRound
enqueued none = waits
enqueued (some queue) = next queue

-- The loop of `main`; `interrupt_var` is set by the handler of SIGINT.
unfoldable pub main_round : Bool → RegistrationRead → PcQueue Registration → MainRound
main_round interrupt_var closed queue = next queue
main_round true broken queue = exits
main_round false broken queue = next queue
main_round true (whole req) queue = exits
main_round false (whole req) queue = enqueued (pcq_enqueue queue req)

-- What `main` does before its loop: it fails, with what `mbroker_destroy` leaves if it is called, or
-- it has a queue and the boxes.
pub data Startup : Type 0 where
  failed : Startup
  destroyed : Bool → Startup
  started : Server → Startup

-- The boxes' mutexes and the memory are given up; the result is whether 0 is returned.
unfoldable pub mbroker_destroy : Memory → Bool × Memory
mbroker_destroy memory = tfs_destroy memory

-- The results of `mkfifo` (with EEXIST as a success), of the two calls of `open`, of the `malloc` of
-- the queue, and of `pthread_create` for all threads.
pub record SystemCalls : Type 0 where
  pub fifo_made : Bool
  pub pipe_opened : Bool
  pub dummy_opened : Bool
  pub buffer : Option (ℕ → Registration)
  pub threads_created : Bool

unfoldable pub main_start : Bool → Malloc → Memory → Option (ℕ → Box) → SystemCalls → ℕ → Startup
main_start usage_ok malloc memory boxes calls max_sessions =
    if usage_ok
    then elim (init_mbroker malloc memory boxes) [
      | none ↦ failed
      | some broker ↦
          if calls.fifo_made && calls.pipe_opened && calls.dummy_opened
          then elim (pcq_create calls.buffer max_sessions) [
            | none ↦ destroyed (mbroker_destroy (initialized broker.fs)).0
            | some queue ↦
                if calls.threads_created
                then started (record {
                  requests_queue = queue;
                  session = record { broker = broker; box_count = 0 };
                })
                else destroyed (mbroker_destroy (initialized broker.fs)).0
          ]
          else destroyed (mbroker_destroy (initialized broker.fs)).0
    ]
    else failed
