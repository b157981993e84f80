-- ===== src/Broker/Sessions.antt =====
-- The sessions with managers of mbroker/mbroker.c: a request to create or delete a box, and the list
-- of boxes. Whether a pipe opens, and what `write` returns on it, are parameters.
use so_project.Base.{
  ℕ, zero, suc, ◌+◌, ◌-◌, ◌%◌, ◌^◌, Bool, true, false, Option, none, some, List, [], ◌∷◌, Name,
  ◌==◌, if◌then◌else◌,
}
use so_project.Protocol.Requests.{WriteResult, failed, wrote, create_box_op, delete_box_op}
use so_project.Protocol.Responses.{
  ListManagerResponse, sizeof_list_manager_response, manager_response_send,
  list_manager_response_init, list_manager_response_send,
}
use so_project.Broker.Boxes.{box_count_max, Box, Broker, RespErr, create_box, delete_box}

-- The boxes, and how many are counted.
pub record Session : Type 0 where
  pub broker : Broker
  pub box_count : ℕ

-- The response: its fields, with the error message named.
pub record Reply : Type 0 where
  pub op_code : ℕ
  pub ret_code : ℕ
  pub error_message : Option RespErr

-- 0 or -1, as an `int32_t`
abbrev pub ret_code_of : Option RespErr → ℕ
ret_code_of none = 0
ret_code_of (some err) = 2 ^ 32 - 1

abbrev reply_to : ℕ → Option RespErr → Reply
reply_to op err = record {
  op_code = (op + 1) % 256;
  ret_code = ret_code_of err;
  error_message = err;
}

abbrev pub count_up : Option RespErr → ℕ → ℕ
count_up none n = n + 1
count_up (some err) n = n

-- A deletion that succeeds follows a creation, so the count is not zero.
abbrev pub count_down : Option RespErr → ℕ → ℕ
count_down none n = n - 1
count_down (some err) n = n

-- `case CREATE_BOX_OP:`
unfoldable pub serve_create : Name → Session → Option (Option RespErr × Session)
serve_create name s = elim (create_box name s.broker) [
  | none ↦ none
  | some (err, b) ↦ some (err, record { broker = b; box_count = count_up err s.box_count })
]

-- `case DELETE_BOX_OP:`
unfoldable pub serve_delete : Name → Session → Option (Option RespErr × Session)
serve_delete name s = elim (delete_box name s.broker) [
  | none ↦ none
  | some (err, b) ↦ some (err, record { broker = b; box_count = count_down err s.box_count })
]

abbrev serve : ℕ → Name → Session → Option (Option RespErr × Session)
serve op name s =
    if op == create_box_op
    then serve_create name s
    else if op == delete_box_op
    then serve_delete name s
    else some (none, s)

-- The result is whether 0 is returned, with the response that is given to `write`. `none` is an
-- abort, a name that leaves an array, or a block on a mutex.
unfoldable pub handle_manager :
    Bool → WriteResult → ℕ → Name → Session → Option ((Bool × Option Reply) × Session)
handle_manager opened write op name s =
    if opened
    then elim (serve op name s) [
      | none ↦ none
      | some (err, s') ↦ some ((manager_response_send write == 0, some (reply_to op err)), s')
    ]
    else some ((false, none), s)

-- A response is written whole.
abbrev pub is_written : WriteResult → Bool
is_written (failed epipe) = false
is_written (wrote n) = n == sizeof_list_manager_response

-- The responses that are written, from place `i` on, with `n` places left and `j` boxes seen already;
-- `writes` are the results of `write`. EPIPE and a part of a response end the list; after another
-- error it goes on. `none` is a name that does not fit in its response.
unfoldable pub list_boxes :
    ℕ → ℕ → ℕ → ℕ → (ℕ → WriteResult) → (ℕ → Box) → Option (List ListManagerResponse)
list_boxes zero i j box_count writes boxes = some []
list_boxes (suc n) i j box_count writes boxes =
    let box = boxes i in
    let last = if j + 1 == box_count then 1 else 0 in
    let sent = list_boxes n (i + 1) (j + 1) box_count writes boxes in
    let skipped = list_boxes n (i + 1) j box_count writes boxes in
    if j == box_count
    then some []
    else if box.used
    then elim (list_manager_response_init last (some box.name) box.size box.n_publishers
        box.n_subscribers) [
          | none ↦ none
          | some resp ↦
              if list_manager_response_send (writes j) == 0
              then elim sent [
                | none ↦ none
                | some rest ↦ some (if is_written (writes j) then resp ∷ rest else rest)
              ]
              else some []
        ]
    else skipped

-- The result is whether 0 is returned, with the responses sent.
unfoldable pub handle_list :
    Bool → (ℕ → WriteResult) → Session → Option (Bool × List ListManagerResponse)
handle_list opened writes s =
    if opened
    then elim (list_boxes box_count_max 0 0 s.box_count writes s.broker.mbroker_boxes) [
      | none ↦ none
      | some sent ↦ some (true, sent)
    ]
    else some (false, [])
