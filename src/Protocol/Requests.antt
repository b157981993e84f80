-- ===== src/Protocol/Requests.antt =====
-- protocol/requests.c: the requests of the clients. A registration request is its 289 bytes; the
-- other structs are records, with their arrays as functions. `mkfifo` and `write` are parameters,
-- as the result they give. Return codes are negated: 2 stands for -2.
use so_project.Base.{ℕ, ◌%◌, Bool, Option, none, some, Name, ◌==◌, if◌then◌else◌}
use so_project.Protocol.Memory.{strcpy, zeroed, set_byte}

abbrev pub pipe_pathname_length : ℕ
pipe_pathname_length = 256

abbrev pub box_name_length : ℕ
box_name_length = 32

abbrev pub message_length : ℕ
message_length = 1024

abbrev pub sub_register_op : ℕ
sub_register_op = 2

abbrev pub create_box_op : ℕ
create_box_op = 3

abbrev pub delete_box_op : ℕ
delete_box_op = 5

abbrev pub list_box_op : ℕ
list_box_op = 7

abbrev pub publish_op_code : ℕ
publish_op_code = 9

-- `sizeof(registration_request_t)`, packed: the operation, the pipe's name, the box's name.
abbrev pub sizeof_registration : ℕ
sizeof_registration = 289

-- The ends of the two arrays in it.
abbrev end_of_pipe_name : ℕ
end_of_pipe_name = 257

-- `strcpy` of the box's name, and its truncation.
abbrev copy_box_name : Option Name → (ℕ → ℕ) → Option (ℕ → ℕ)
copy_box_name none req = some req
copy_box_name (some box_name) req = elim (strcpy sizeof_registration 257 box_name req) [
  | none ↦ none
  | some req' ↦ some (set_byte 288 0 req')
]

-- The request that is made. `none` where `strcpy` leaves the array that it fills; its
-- result is never null.
unfoldable pub registration_request_init : ℕ → Name → Option Name → Option (ℕ → ℕ)
registration_request_init op_code pipe_name box_name =
    elim (strcpy end_of_pipe_name 1 pipe_name (set_byte 0 (op_code % 256) zeroed)) [
      | none ↦ none
      | some req ↦ elim (copy_box_name box_name req) [
        | none ↦ none
        | some req' ↦ some (set_byte 256 0 req')
      ]
    ]

-- What `write` returns: an error, with whether it is EPIPE, or a count.
pub data WriteResult : Type 0 where
  failed : Bool → WriteResult
  wrote : ℕ → WriteResult

unfoldable pub registration_request_send : WriteResult → ℕ
registration_request_send (failed epipe) = 1
registration_request_send (wrote n) = if n == sizeof_registration then 0 else 2

-- The result of `mkfifo`: success, or an error, with whether it is EEXIST.
unfoldable pub registration_request_mkfifo : Option Bool → ℕ
registration_request_mkfifo none = 0
registration_request_mkfifo (some exists) = if exists then 0 else 1

pub record PublisherRequest : Type 0 where
  pub op_code : ℕ
  pub message : ℕ → ℕ

abbrev pub sizeof_publisher : ℕ
sizeof_publisher = 1025

-- The struct is not cleared first.
unfoldable pub publisher_request_init : Name → PublisherRequest → Option PublisherRequest
publisher_request_init message req = elim (strcpy message_length 0 message req.message) [
  | none ↦ none
  | some m ↦ some (record { op_code = publish_op_code; message = m })
]

unfoldable pub publisher_request_send : WriteResult → ℕ
publisher_request_send (failed epipe) = if epipe then 1 else 2
publisher_request_send (wrote n) = if n == sizeof_publisher then 0 else 3
