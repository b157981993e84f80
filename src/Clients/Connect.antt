-- ===== src/Clients/Connect.antt =====
-- utils/client.c: how a client registers with the broker. System calls are given by their results.
use so_project.Base.{ℕ, Bool, true, false, Option, none, some, Name, ◌==◌, if◌then◌else◌}
use so_project.Protocol.Memory.{field}
use so_project.Protocol.Requests.{
  pipe_pathname_length, WriteResult, registration_request_init, registration_request_mkfifo,
  registration_request_send,
}

-- `mkfifo` (none, or an error with whether it is EEXIST), `open` of the broker's pipe, `write` of
-- the request, and `open` of the client's pipe.
pub record Calls : Type 0 where
  pub mkfifo : Option Bool
  pub broker_opened : Bool
  pub write : WriteResult
  pub opened : Bool

-- The client goes on, with its request made, or the process ends with EXIT_FAILURE: at once, or by
-- `exit_failure`, which closes a descriptor or not and removes the pipe.
pub data Connection : Type 0 where
  connected : (ℕ → ℕ) → Connection
  exited : Connection
  removed : (closed : Bool) → Name → Connection

-- `exit_failure(fd, pipe_name)`, by whether the descriptor is not -1.
abbrev pub exit_failure : Bool → Name → Connection
exit_failure open_fd pipe_name = removed open_fd pipe_name

-- What follows once the request is in memory.
unfoldable pub register : Calls → (ℕ → ℕ) → Connection
register calls req =
    let pipe_name = field pipe_pathname_length 1 req in
    if registration_request_mkfifo calls.mkfifo == 0
    then if calls.broker_opened
      then if registration_request_send calls.write == 0
        then if calls.opened then connected req else exit_failure false pipe_name
        else exit_failure true pipe_name
      else exit_failure false pipe_name
    else exited

-- `none` where `strcpy` leaves an array of the request.
unfoldable pub connect_to_mbroker : Calls → Name → Option Name → ℕ → Option Connection
connect_to_mbroker calls pipe_name box_name op_code =
    elim (registration_request_init op_code pipe_name box_name) [
      | none ↦ none
      | some req ↦ some (register calls req)
    ]
