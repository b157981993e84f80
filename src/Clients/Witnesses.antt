-- ===== src/Clients/Witnesses.antt =====
-- The theorems on the clients at two lines and at one box.
use so_project.Base.{◌≡◌, refl, Bool, true, some, List, [], ◌∷◌, Name, ◌==◌, arith}
use so_project.Protocol.Memory.{char_at, IsText}
use so_project.Protocol.Requests.{wrote}
use so_project.Protocol.Responses.{ListManagerResponse, list_manager_response_send}
use so_project.Broker.Boxes.{box_count_max}
use so_project.Broker.Sessions.{Session, handle_list}
use so_project.Broker.SessionWitnesses.{box_a, quiet_broker}
use so_project.Clients.Manager.{Line, print_boxes}
use so_project.Clients.Entries.{used_lines, count, reads_of}
use so_project.Clients.Listing.{print_boxes-used_lines}

abbrev two_lines : List Name
two_lines = (b'h' ∷ b'i' ∷ []) ∷ (b'y' ∷ b'o' ∷ []) ∷ []

abbrev one_listed : Session
one_listed = record { broker = quiet_broker; box_count = 1 }

path_a-IsText : IsText (b'/' ∷ box_a)
unfolding char_at
path_a-IsText k lt = ground arith

print_boxes-used_lines_example :
    (sent : List ListManagerResponse) × (handle_list true (λ k. wrote 58) one_listed
      ≡ some (true, sent))
    × ((ls : List Line) × (print_boxes (λ cmp rs. rs) (reads_of sent) ≡ some (1 == 0, ls))
        × ((p : Line → Bool)
            → count p ls ≡ count p (used_lines box_count_max 0 quiet_broker.mbroker_boxes)))
unfolding list_manager_response_send
print_boxes-used_lines_example =
    print_boxes-used_lines (λ cmp rs. rs) (λ k. wrote 58) one_listed (λ rs p. refl) (λ k. refl)
      (λ i used. (box_a, refl, path_a-IsText, omega arith)) refl
