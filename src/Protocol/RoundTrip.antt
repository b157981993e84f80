-- ===== src/Protocol/RoundTrip.antt =====
-- Reading the fields of the requests and responses of protocol/.
use so_project.Base.{
  ℕ, zero, suc, ◌+◌, ◌-◌, ◌%◌, ◌<◌, ◌≡◌, refl, ap, ◌∙◌, some, Name, length, take_all, c_string,
  arith,
}
use so_project.Protocol.Memory.{copied, zeroed, set_byte, field, IsText, c_string-char_at}
use so_project.Protocol.Requests.{
  message_length, registration_request_init, PublisherRequest, publisher_request_init,
}
use so_project.Protocol.Responses.{
  ListManagerResponse, subscriber_response_init, list_manager_response_init,
}

-- An array whose last byte is zero reads as one shorter.
c_string_last : (n : ℕ) (m : ℕ → ℕ) → m n ≡ 0 → c_string (suc n) m ≡ c_string n m
unfolding c_string
c_string_last zero m h = rw h refl
c_string_last (suc n) m h = rw (c_string_last n (λ k. m (k + 1)) (ground (arith, h))) refl

-- The bytes of a whole request.
abbrev request : ℕ → Name → Name → ℕ → ℕ
request op pipe_name box_name =
    set_byte 256 0
      (set_byte 288 0 (copied 257 box_name (copied 1 pipe_name (set_byte 0 (op % 256) zeroed))))

-- For names without zeros inside: a registration request for a box whose name has less than 32
-- characters is made when the pipe's name has less than 256, and it holds the operation, modulo
-- 256, the pipe's name and the box's name.
pub registration_request_init_lem :
    (op : ℕ) (pipe_name box_name : Name)
    → IsText pipe_name
    → IsText box_name
    → length pipe_name < 256
    → length box_name < 32
    → (req : ℕ → ℕ) × (registration_request_init op pipe_name (some box_name) ≡ some req)
      × (req 0 ≡ op % 256)
      × (field 256 1 req ≡ pipe_name)
      × (field 32 257 req ≡ box_name)
unfolding registration_request_init
registration_request_init_lem op pipe_name box_name tp tb lp lb = (
  request op pipe_name box_name,
  ground arith,
  ground arith,
  c_string_last 255 _ (ground arith)
      ∙ c_string-char_at 255 pipe_name _ tp
          (λ k lt le. let same : 1 + k - 1 ≡ k = omega arith in ground arith)
      ∙ take_all 255 pipe_name (omega arith),
  c_string_last 31 _ (ground arith)
      ∙ c_string-char_at 31 box_name _ tb
          (λ k lt le. let same : 257 + k - 257 ≡ k = omega arith in ground arith)
      ∙ take_all 31 box_name (omega arith),
)

-- A string copied to an array that has room for it reads as itself.
field-copied :
    (n : ℕ) (s : Name) (m : ℕ → ℕ) → IsText s → length s < n → field n 0 (copied 0 s m) ≡ s
field-copied n s m t lt =
    c_string-char_at n s _ t (λ k ltk le. let same : 0 + k - 0 ≡ k = omega arith in ground arith)
    ∙ take_all n s (omega arith)

-- The response to a message that fits holds the message.
pub subscriber_response_init-eq :
    (message : Name)
    → IsText message
    → length message < message_length
    → (resp : PublisherRequest) × (subscriber_response_init message ≡ some resp)
      × (field message_length 0 resp.message ≡ message)
unfolding subscriber_response_init
subscriber_response_init-eq message t lt = (
  record { op_code = 10; message = copied 0 message zeroed },
  ground arith,
  field-copied message_length message zeroed t lt,
)

-- A publisher's message of less than 1024 characters, with no zero inside, is in the request,
-- whatever the memory of the request held before, and a subscriber's response to the same
-- message holds it too.
pub publisher_request_init-subscriber_response_init :
    (message : Name) (before : PublisherRequest)
    → IsText message
    → length message < 1024
    → (req resp : PublisherRequest) × (publisher_request_init message before ≡ some req)
      × (req.op_code ≡ 9)
      × (field 1024 0 req.message ≡ message)
      × (subscriber_response_init (field 1024 0 req.message) ≡ some resp)
      × (resp.op_code ≡ 10)
      × (field 1024 0 resp.message ≡ message)
unfolding publisher_request_init subscriber_response_init
publisher_request_init-subscriber_response_init message before t lt =
    let made : subscriber_response_init message
        ≡ some (record { op_code = 10; message = copied 0 message zeroed }) =
      ground arith in
    let back = field-copied 1024 message before.message t lt in
    (
      record { op_code = 9; message = copied 0 message before.message },
      record { op_code = 10; message = copied 0 message zeroed },
      ground arith,
      refl,
      back,
      ap subscriber_response_init back ∙ made,
      refl,
      field-copied 1024 message zeroed t lt,
    )

-- An entry of the list of boxes, for a name of less than 32 characters with no zero inside,
-- holds the name and the three numbers, and its flag, modulo 256.
pub list_manager_response_init_lem :
    (last : ℕ) (name : Name) (size publishers subscribers : ℕ)
    → IsText name
    → length name < 32
    → (resp : ListManagerResponse) × (list_manager_response_init last
          (some name)
          size
          publishers
          subscribers
        ≡ some resp)
      × (resp.op_code ≡ 8)
      × (resp.last_flag ≡ last % 256)
      × (field 32 0 resp.box_name ≡ name)
      × (resp.box_size ≡ size)
      × (resp.n_publishers ≡ publishers)
      × (resp.n_subscribers ≡ subscribers)
unfolding list_manager_response_init
list_manager_response_init_lem last name size publishers subscribers t lt = (
  record {
    op_code = 8;
    last_flag = last % 256;
    box_name = copied 0 name zeroed;
    box_size = size;
    n_publishers = publishers;
    n_subscribers = subscribers;
  },
  ground arith,
  refl,
  refl,
  field-copied 32 name zeroed t lt,
  refl,
  refl,
  refl,
)
