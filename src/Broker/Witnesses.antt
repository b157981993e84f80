-- ===== src/Broker/Witnesses.antt =====
-- The theorems on boxes at a broker with one box.
use so_project.Base.{ℕ, zero, suc, none, ◌≡◌, refl, true, false, Option, some, [], ◌∷◌, Name, ◌==◌}
use so_project.Tfs.Witnesses.{empty, no_entries, empty-IsValid}
use so_project.Broker.Boxes.{Broker, RespErr, box_initialize, delete_box}
use so_project.Protocol.Requests.{wrote}
use so_project.PcQueue.{PcQueue}
use so_project.Broker.Server.{Registration, Client, Server}
use so_project.Broker.Sessions.{Session}
use so_project.Tfs.Types.{Inode, t_file, AllocationState, free, OpenFileEntry, max_dir_entries}
use so_project.Tfs.State.{uninitialized}
use so_project.Tfs.Valid.{IsValid}
use so_project.Tfs.Directory.{find_name}
use so_project.Tfs.Init.{first_entries}
use so_project.Broker.Init.{init_mbroker, init_mbroker_lem}
use so_project.Broker.Deletion.{Deleted, delete_box-Deleted}

abbrev news : Name
news = b'n' ∷ b'w' ∷ []

abbrev sports : Name
sports = b's' ∷ []

abbrev one_box : Broker
one_box = record {
  mbroker_boxes = λ i. record {
    name = b'/' ∷ news;
    n_publishers = 0;
    n_subscribers = 0;
    size = 0;
    mutex = false;
    used = i == 0;
  };
  fs = empty;
}

abbrev of_length : ℕ → Name
of_length zero = []
of_length (suc n) = b'a' ∷ of_length n

-- Names of 15 and of 31 characters leave an array.
box_initialize_overruns :
    (box_initialize (of_length 15) ≡ none) × (box_initialize (of_length 31) ≡ none)
unfolding box_initialize
box_initialize_overruns = (refl, refl)

delete_box-Deleted_example :
    (r : Option RespErr) × (s' : Broker) × (delete_box news one_box ≡ some (r, s'))
    × Deleted 0 no_entries news one_box r s'
delete_box-Deleted_example = delete_box-Deleted news one_box empty-IsValid (λ i found. refl)

abbrev one_session : Session
one_session = record { broker = one_box; box_count = 1 }

abbrev blank_inodes : ℕ → Inode
blank_inodes i = record { i_node_type = t_file; i_size = 0; i_data_block = none }

abbrev all_free : ℕ → AllocationState
all_free i = free

abbrev zeros : ℕ → ℕ → ℕ
zeros i k = 0

abbrev no_files : ℕ → OpenFileEntry
no_files h = record { of_inumber = 0; of_offset = 0 }

init_mbroker_lem_example :
    (s : Broker) × (init_mbroker
        (record {
          inodes = some blank_inodes;
          inode_states = some all_free;
          blocks = some zeros;
          block_states = some all_free;
          open_files = some no_files;
          open_states = some all_free;
        })
        uninitialized
        (some one_box.mbroker_boxes)
      ≡ some s)
    × IsValid 0 (first_entries zeros) s.fs
    × ((name : Name) → find_name (first_entries zeros) (max_dir_entries s.fs) name ≡ none)
    × ((i : ℕ) → ((s.mbroker_boxes i).used ≡ false) × ((s.mbroker_boxes i).mutex ≡ false))
init_mbroker_lem_example =
    init_mbroker_lem blank_inodes all_free zeros all_free no_files all_free one_box.mbroker_boxes
      (λ k. refl) (λ i le. refl) (λ h le. refl)

abbrev empty_queue : PcQueue Registration
empty_queue = record {
  pcq_buffer = λ k p. 0;
  pcq_capacity = 2;
  pcq_current_size = 0;
  pcq_head = 0;
  pcq_tail = 0;
}

abbrev one_server : Server
one_server = record { requests_queue = empty_queue; session = one_session }

abbrev manager_client : Client
manager_client = record { opened = true; write = λ k. wrote 1029; arrivals = []; turns = [] }
