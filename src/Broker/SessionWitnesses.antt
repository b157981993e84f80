-- ===== src/Broker/SessionWitnesses.antt =====
-- The theorems on publishers and subscribers at a box without messages.
use so_project.Base.{
  ℕ, ◌≡◌, ◌<◌, refl, subst, true, false, some, List, [], ◌∷◌, Name, length, first_index,
  first_index-eq_some, c_string, str_eq, ◌==◌, arith,
}
use so_project.Base.Monad.{Ends}
use so_project.Tfs.Witnesses.{one_file, one_entry, one_file-IsValid}
use so_project.Tfs.State.{free_all}
use so_project.Tfs.Operations.{valid_pathname}
use so_project.Tfs.Directory.{find_name}
use so_project.Protocol.Memory.{char_at}
use so_project.Protocol.Requests.{PublisherRequest, wrote, publisher_request_send}
use so_project.Protocol.Responses.{subscriber_response_send}
use so_project.Broker.Boxes.{box_count_max, Broker, get_box, is_box_of}
use so_project.Broker.Publishing.{Arrival, request, handle_publisher}
use so_project.Broker.Delivery.{Move, publish, deliver, text_of, texts_of, deliveries}
use so_project.Broker.Conversation.{conversation, Fresh, conversation-deliveries}
use so_project.Broker.PublisherLaws.{Served, handle_publisher-Served}

abbrev pub box_a : Name
box_a = b'a' ∷ []

-- One box, of file 1.
abbrev pub quiet_broker : Broker
quiet_broker = record {
  mbroker_boxes = λ i. record {
    name = b'/' ∷ box_a;
    n_publishers = 0;
    n_subscribers = 0;
    size = 0;
    mutex = false;
    used = i == 0;
  };
  fs = one_file;
}

box_a-found : get_box box_a quiet_broker ≡ some 0
unfolding get_box str_eq
box_a-found =
    first_index-eq_some (λ i. is_box_of box_a (quiet_broker.mbroker_boxes i)) box_count_max 0
      (omega arith) refl (λ j lt. absurd (omega arith))

pub quiet_broker-Fresh : (room : ℕ) → room < 100 → Fresh 0 one_entry box_a 0 1 room quiet_broker
unfolding valid_pathname find_name str_eq first_index free_all
quiet_broker-Fresh room lt = record {
  valid = one_file-IsValid;
  found = box_a-found;
  unlocked = refl;
  named = omega arith;
  vacant = λ e. omega arith;
  counted = refl;
  path = refl;
  listed = refl;
  empty = refl;
  fits = omega arith;
  block = (1, omega arith, refl);
  handles = (0, 1, (λ e. omega arith), omega arith, omega arith, refl, refl);
}

abbrev greeting : Name
greeting = b'h' ∷ b'i' ∷ []

abbrev pub greeting_request : PublisherRequest
greeting_request = record { op_code = 9; message = char_at greeting }

greeting_request-text : text_of greeting_request ≡ greeting
unfolding char_at c_string
greeting_request-text = refl

abbrev one_message : List Move
one_message = publish greeting_request ∷ deliver ∷ deliver ∷ []

conversation-deliveries_example :
    Ends
      (λ r s'. texts_of r ≡ deliveries [] one_message)
      (conversation (wrote 1025) box_a one_message quiet_broker)
unfolding char_at c_string publisher_request_send subscriber_response_send
conversation-deliveries_example =
    conversation-deliveries (wrote 1025) box_a 0 1 one_message quiet_broker refl
      (quiet_broker-Fresh 3 (omega arith)) (omega arith, tt)

abbrev one_arrival : List Arrival
one_arrival =
    record { meanwhile = λ s. s; read = request greeting_request; before_lock = λ s. s } ∷ []

one_arrival-short :
    (r : PublisherRequest) → request greeting_request ≡ request r → length (text_of r) < 1024
one_arrival-short r same =
    let eq : greeting_request ≡ r = cc in
    subst (λ q. length (text_of q) < 1024) eq (rw greeting_request-text (omega arith))

handle_publisher-Served_example :
    Ends (Served 0 0) (handle_publisher true box_a one_arrival quiet_broker)
unfolding free_all
handle_publisher-Served_example =
    let v = quiet_broker-Fresh 0 (omega arith) in
    handle_publisher-Served 0 0 (omega arith) box_a quiet_broker 1 0 one_file-IsValid box_a-found
      refl refl v.named v.path v.listed (omega arith) refl one_arrival
      ((λ k s v. v, λ k s v. v), tt) (one_arrival-short, tt)
