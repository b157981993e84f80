-- ===== src/Lib.antt =====
-- TecnicoFS and the message broker built on it.
--
-- The program keeps messages in boxes. A box is a file of a small in-memory file system (fs2/),
-- whose calls share one global mutex; the broker (mbroker/) opens, reads and writes the files for
-- the publishers and subscribers, and hands requests to its threads through a bounded queue
-- (producer-consumer/). Requests and responses are fixed-size records (protocol/).
--
-- Base: Boolean tests, `size_t` arithmetic, arrays as functions, C strings.
--   Base/Tests, Base/Arrays, Base/Strings.
--   Base/Monad: a C function as a map from the state to a result and a state, with `none` where the
--     program aborts, blocks on a lock that it holds, or leaves what C defines. `Ends P` says that a
--     run returns and that `P` holds of the result and the state after it.
-- Tfs: the file system, fs2/state.c and fs2/operations.c.
--   Tfs/Types: the types of fs2/state.h and the static variables, as the record `Fs`.
--   Tfs/State: the functions of fs2/state.c under their own names.
--   Tfs/Operations: the functions of fs2/operations.c; the long ones are cut into helpers in the
--     order of the source: `tfs_open` into open_valid, open_existing, open_new and open_entry,
--     `tfs_write` into write_file, ensure_block and store_bytes, `tfs_read` into read_file and
--     fetch_bytes, `tfs_unlink` into unlink_valid.
--   Tfs/Valid: the invariant, `IsValid b e s`: block `b` holds the root directory's entries `e`.
--   Tfs/Alloc, Directory, DirUpdate, DirCalls, Steps, StepInv: the lemmas of the tables.
--   Tfs/Open, OpenLaws, Unlink, Handles, Write, WriteLaws, Contents, Read, RoundTrip, Init: what
--     each call does.
--   Tfs/Tests, Tfs/Witnesses: runs on small parameters.
-- LinkFs: the file system with links, fs/state.c and fs/operations.c, which stands alone.
--   LinkFs/Types: fs/state.h and the static variables, as the record `Volume`; a lock is whether it
--     is held, and a call that takes a held lock is `none`, since calls are run one at a time.
--   LinkFs/State, Tables: the functions of fs/state.c; LinkFs/Operations, Transfer: those of
--     fs/operations.c, the long ones cut in the order of the source: `tfs_open` into open_valid,
--     open_existing, open_link, open_plain and open_new, `tfs_sym_link` into sym_link_valid and
--     link_to, `tfs_link` into link_valid and hard_link, `tfs_unlink` into is_busy and drop_link.
--   LinkFs/Refs: how many entries name an inode. LinkFs/Valid: the invariant.
--   LinkFs/Calls, Update: the lemmas of the locks and the tables.
--   LinkFs/Link, LinkLaws, Unlink, UnlinkLaws: hard links and removal. LinkFs/Follow: chains of
--     symbolic links. LinkFs/Open, OpenLaws, Create, CreateLaws, Created: opening. LinkFs/SymLink,
--     SymLinkLaws, SymLinked: symbolic links. LinkFs/Init: the first volume.
--   LinkFs/Example, Witnesses, Tests: a volume with links, the theorems on it, and runs.
-- PcQueue: the queue of producer-consumer/pcqueue.c.
--   PcQueue/Fifo: the queue as a list. Each call is taken to run alone between its locks; `none`
--     is a call that waits.
--   PcQueue/Threads: any number of threads that each run one call, one operation on a lock at a
--     time, as a step relation; a thread that waits may wake up for no reason.
--   PcQueue/Exclusion, Needs, Order: the invariants of the threads. PcQueue/Wakeup: a schedule.
-- Protocol: the messages of protocol/requests.c and protocol/response.c.
--   Protocol/Memory: `strcpy` into an array of a struct given as its bytes, with `none` where it
--     leaves the array.
--   Protocol/Requests, Responses: the functions under their own names. The results of `write` and
--     `mkfifo` are parameters, and return codes are negated.
--   Protocol/RoundTrip: reading the fields of a message.
-- Broker: mbroker/box.c and mbroker/mbroker.c.
--   Broker/Boxes: the functions on boxes, over the calls of Tfs/Operations. In `box_initialize` the
--     array `tmp` is one byte too short; that byte is there when the stack, aligned to 16 bytes, has
--     it to spare, which is for names of another length than 15 or 31, and else the call is `none`.
--     So it is for a name that does not fit in the box's array, one of more than 30 characters.
--   Broker/Creation, Deletion: `create_box` and `delete_box`.
--   Broker/Sessions: `handle_manager`, `handle_list`. Broker/Init: `init_mbroker`.
--   Broker/Access: the name, the mutex and the counters of a box, as steps on the broker; a mutex that
--     is held blocks, `none`, and a name that does not end in its array is not read, `none`.
--   Broker/Publishing, Subscribing: `handle_publisher` and `handle_subscriber`, each cut into its
--     start, the rounds of its loop and its end. What the other threads do while the handler holds
--     no mutex is a function of each round, and so are the results of `read` and `write`.
--   Broker/Server: `requests_handler`, a round of a worker and of the main loop, and the start of
--     `main`. Broker/Registration: a request from the client's bytes to its handler.
--   Broker/Steps, Writing, Reading, Sending, Receiving, Pending: the lemmas of a message's way into
--     the file and out of it. Broker/Delivery: schedules of rounds, and the queue that they are
--     compared with. Broker/Admission, Conversation: both sessions from their start on.
--   Broker/PublisherSteps, PublisherLaws: a publisher's session among other threads.
-- Clients: publisher/pub.c, subscriber/sub.c, manager/manager.c, utils/client.c.
--   Clients/Connect: `connect_to_mbroker` and `exit_failure`. Clients/Publisher, Subscriber: the
--     loops of `main`. Clients/Manager: the choice of the command, and what is printed; `qsort` is a
--     parameter.
--   Clients/Lines: the publisher on lines. Clients/Transmission: publisher, broker and subscriber
--     together. Clients/Entries, Listing: the listing of the boxes, broker and manager together.
-- Utils: the wrappers of pthread functions in utils/utils.c and fs/utils.c.
--
-- Numbers are natural numbers; `size_t` sums and differences are taken modulo 2^64. The arrays are
-- functions of the index, and the bounds are tested where the code tests them; a copy that leaves
-- its block is `none`. The sizes that the tables are allocated with are tested for wrapping, `sizes_fit`:
-- with tables that are too short `state_init` has not a state of the file system. Blocks are below 2^63 bytes and writes below 2^63 bytes in the theorems, so
-- that no sum wraps. Loops over tables are structural recursion on the number of slots. The loop of
-- `read_message` has fuel, one unit for a byte that is read; `tfs_open` of fs/ has fuel for the depth
-- of its recursion over symbolic links, and a chain of n links needs n + 1.
--
-- The loop of `publish_input` has fuel, one unit for a line; `subscribe_turn` gives `read_message` one
-- more than a block, which is more than a file holds.
--
-- Not modelled: the delays of fs2/state.c and fs/state.c, failing locks inside the file systems, the
-- bytes of a directory's block, calls of fs/ that run at the same time, the installing of signal
-- handlers, the usage tests and the closing of pipes at the end of pub.c and sub.c, and logging. The
-- pages of pipes are not state: what a read or a write gives is a parameter.
pub mod Base
pub mod Broker
pub mod Clients
pub mod LinkFs
pub mod PcQueue
pub mod Protocol
pub mod Tfs
pub mod Utils
