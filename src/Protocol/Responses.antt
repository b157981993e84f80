-- ===== src/Protocol/Responses.antt =====
-- protocol/response.c: the responses of the broker. Return codes are negated, as in the requests.
use so_project.Base.{ℕ, ◌%◌, Option, none, some, Name, ◌==◌, if◌then◌else◌}
use so_project.Protocol.Memory.{strcpy, zeroed}
use so_project.Protocol.Requests.{
  box_name_length, message_length, PublisherRequest, WriteResult, failed, wrote,
  publisher_request_send,
}

abbrev pub err_message_length : ℕ
err_message_length = 1024

abbrev pub subscriber_op_code : ℕ
subscriber_op_code = 10

abbrev pub list_manager_op : ℕ
list_manager_op = 8

-- `subscriber_response_t` is `publisher_request_t`.
unfoldable pub subscriber_response_init : Name → Option PublisherRequest
subscriber_response_init message = elim (strcpy message_length 0 message zeroed) [
  | none ↦ none
  | some m ↦ some (record { op_code = subscriber_op_code; message = m })
]

unfoldable pub subscriber_response_send : WriteResult → ℕ
subscriber_response_send r = publisher_request_send r

-- `ret_code` is an `int32_t`: -1 is 2^32 - 1.
pub record ManagerResponse : Type 0 where
  pub op_code : ℕ
  pub ret_code : ℕ
  pub error_message : ℕ → ℕ

abbrev pub sizeof_manager_response : ℕ
sizeof_manager_response = 1029

unfoldable pub manager_response_set_error_msg : ManagerResponse → Name → Option ManagerResponse
manager_response_set_error_msg resp msg =
    elim (strcpy err_message_length 0 msg resp.error_message) [
      | none ↦ none
      | some m ↦ some (record resp { error_message = m })
    ]

unfoldable pub manager_response_init : ℕ → ℕ → Option Name → Option ManagerResponse
unfolding manager_response_set_error_msg
manager_response_init op_code ret_code none =
    some (record { op_code = op_code % 256; ret_code = ret_code; error_message = zeroed })
manager_response_init op_code ret_code (some message) =
    elim (strcpy err_message_length 0 message zeroed) [
      | none ↦ none
      | some m ↦ some (record { op_code = op_code % 256; ret_code = ret_code; error_message = m })
    ]

-- A failure that is not EPIPE falls through to `return 0`.
unfoldable pub manager_response_send : WriteResult → ℕ
manager_response_send (failed epipe) = if epipe then 1 else 0
manager_response_send (wrote n) = if n == sizeof_manager_response then 0 else 2

pub record ListManagerResponse : Type 0 where
  pub op_code : ℕ
  pub last_flag : ℕ
  pub box_name : ℕ → ℕ
  pub box_size : ℕ
  pub n_publishers : ℕ
  pub n_subscribers : ℕ

abbrev pub sizeof_list_manager_response : ℕ
sizeof_list_manager_response = 58

abbrev copy_name : Option Name → Option (ℕ → ℕ)
copy_name none = some zeroed
copy_name (some box_name) = strcpy box_name_length 0 box_name zeroed

unfoldable pub list_manager_response_init : ℕ → Option Name → ℕ → ℕ → ℕ → Option ListManagerResponse
list_manager_response_init last_flag box_name box_size n_publishers n_subscribers =
    elim (copy_name box_name) [
      | none ↦ none
      | some m ↦ some (record {
        op_code = list_manager_op;
        last_flag = last_flag % 256;
        box_name = m;
        box_size = box_size;
        n_publishers = n_publishers;
        n_subscribers = n_subscribers;
      })
    ]

unfoldable pub list_manager_response_send : WriteResult → ℕ
list_manager_response_send (failed epipe) = if epipe then 1 else 0
list_manager_response_send (wrote n) = if n == sizeof_list_manager_response then 0 else 2
