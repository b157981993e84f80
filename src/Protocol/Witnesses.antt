-- ===== src/Protocol/Witnesses.antt =====
-- The theorems on the messages at concrete names.
use so_project.Base.{ℕ, ◌≡◌, some, Name, [], ◌∷◌, take, arith}
use so_project.Protocol.Memory.{char_at, field, IsText}
use so_project.Protocol.Requests.{
  registration_request_init, PublisherRequest, publisher_request_init,
}
use so_project.Protocol.Responses.{
  subscriber_response_init, ListManagerResponse, list_manager_response_init,
}
use so_project.Protocol.RoundTrip.{
  registration_request_init_lem, publisher_request_init-subscriber_response_init,
  list_manager_response_init_lem,
}

abbrev two_letters : Name
two_letters = b'a' ∷ b'b' ∷ []

two_letters-IsText : IsText two_letters
unfolding char_at
two_letters-IsText k lt = ground arith

registration_request_init_lem_example :
    (req : ℕ → ℕ) × (registration_request_init 3 two_letters (some two_letters) ≡ some req)
    × (req 0 ≡ 3)
    × (field 256 1 req ≡ take 255 two_letters)
    × (field 32 257 req ≡ two_letters)
registration_request_init_lem_example =
    registration_request_init_lem 3 two_letters two_letters two_letters-IsText two_letters-IsText
      (omega arith) (omega arith)

abbrev garbage : PublisherRequest
garbage = record { op_code = 77; message = λ k. 88 }

publisher_request_init-subscriber_response_init_example :
    (req resp : PublisherRequest) × (publisher_request_init two_letters garbage ≡ some req)
    × (req.op_code ≡ 9)
    × (field 1024 0 req.message ≡ two_letters)
    × (subscriber_response_init (field 1024 0 req.message) ≡ some resp)
    × (resp.op_code ≡ 10)
    × (field 1024 0 resp.message ≡ two_letters)
publisher_request_init-subscriber_response_init_example =
    publisher_request_init-subscriber_response_init two_letters garbage two_letters-IsText
      (omega arith)

list_manager_response_init_lem_example :
    (resp : ListManagerResponse) × (list_manager_response_init 1 (some two_letters) 12 1 3
      ≡ some resp)
    × (resp.op_code ≡ 8)
    × (resp.last_flag ≡ 1)
    × (field 32 0 resp.box_name ≡ two_letters)
    × (resp.box_size ≡ 12)
    × (resp.n_publishers ≡ 1)
    × (resp.n_subscribers ≡ 3)
list_manager_response_init_lem_example =
    list_manager_response_init_lem 1 two_letters 12 1 3 two_letters-IsText (omega arith)
