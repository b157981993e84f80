-- ===== src/Broker/Conversation.antt =====
-- A publisher and a subscriber of mbroker/mbroker.c on a box that holds nothing yet, from their
-- registrations on.
use so_project.Base.{
  ℕ, ◌≤◌, ◌<◌, ◌≡◌, refl, ap, sym, ◌∙◌, ◌≢◌, subst, inl, inr, true, false, Bool-cases, Option, none,
  some, Name, length, List, [], ◌==◌, update_self, add_size, arith,
}
use so_project.Base.Monad.{pure, ◌>>=◌, Ends, Ends->>=}
use so_project.Tfs.Types.{DirEntry, free, OpenFileEntry, Fs, max_dir_entries}
use so_project.Tfs.Operations.{tfs_o_append, valid_pathname, base_name}
use so_project.Tfs.Valid.{IsValid}
use so_project.Tfs.Directory.{find_name, find_name-listed}
use so_project.Tfs.Contents.{file_size}
use so_project.Tfs.Steps.{with_file}
use so_project.Tfs.Reopen.{Reopened}
use so_project.Protocol.Requests.{PublisherRequest, WriteResult}
use so_project.Protocol.Responses.{subscriber_response_send}
use so_project.Broker.Boxes.{Box, Broker, get_box}
use so_project.Broker.Access.{B}
use so_project.Broker.Publishing.{begin_publisher}
use so_project.Broker.Subscribing.{begin_subscriber}
use so_project.Broker.Reading.{Holds}
use so_project.Broker.Pending.{Linked}
use so_project.Broker.Delivery.{
  Move, exchange, bytes_of, AreTerminated, deliveries, texts_of, exchange-deliveries,
}
use so_project.Broker.Admission.{
  get_box-used, get_box-set_box, begin_publisher-Admitted, begin_subscriber-Admitted,
}

-- A publisher and a subscriber of the same box are admitted, and then run by the schedule.
unfoldable pub conversation : WriteResult → Name → List Move → B (List PublisherRequest)
conversation write name moves = do
  publisher ← begin_publisher true name
  subscriber ← begin_subscriber true name
  elim publisher [
    | none ↦ pure []
    | some (i, k) ↦ elim subscriber [ none ↦ pure [] | some (i', j) ↦ exchange write i k j 0 moves ]
  ]

-- The box at `i`, of file `x`, is empty and has no publisher; a block and two handles are free.
pub record Fresh (b : ℕ) (e : ℕ → DirEntry) (name : Name) (i x room : ℕ) (s : Broker) : Type 0 where
  pub valid : IsValid b e s.fs
  pub found : get_box name s ≡ some i
  pub unlocked : (s.mbroker_boxes i).mutex ≡ false
  pub named : length (s.mbroker_boxes i).name < 32
  pub vacant : (s.mbroker_boxes i).n_publishers ≢ 1
  pub counted : (s.mbroker_boxes i).size ≡ 0
  pub path : valid_pathname (some (s.mbroker_boxes i).name) ≡ true
  pub listed :
      find_name e (max_dir_entries s.fs) (base_name (some (s.mbroker_boxes i).name)) ≡ some x
  pub empty : file_size s.fs x ≡ 0
  pub fits : room ≤ s.fs.fs_params.block_size
  pub block : (d : ℕ) × (d < s.fs.fs_params.max_block_count) × (s.fs.free_blocks d ≡ free)
  pub handles :
      (h g : ℕ) × (h ≢ g)
      × (h < s.fs.fs_params.max_open_files_count)
      × (g < s.fs.fs_params.max_open_files_count)
      × (s.fs.free_open_file_entries h ≡ free)
      × (s.fs.free_open_file_entries g ≡ free)

-- When the first handle is taken another is free.
another_handle :
    {b : ℕ} {e : ℕ → DirEntry} {name : Name} {i x room : ℕ} {s : Broker} (k : ℕ) (offset : ℕ)
    → Fresh b e name i x room s
    → (h : ℕ) × (h < s.fs.fs_params.max_open_files_count)
      × ((with_file k x offset s.fs).free_open_file_entries h ≡ free)
another_handle k offset v =
    let (h, g, ne, lth, ltg, frh, frg) = v.handles in
    elim (Bool-cases (k == h)) [
      | inl same ↦ (g, ltg, ground arith)
      | inr other ↦ (h, lth, ground arith)
    ]

-- Both sessions have begun, and nothing is between them.
Linked-start :
    {b : ℕ} {e : ℕ → DirEntry} {name : Name} {i x room : ℕ} {s t : Broker} {r r' : Option ℕ}
    {fs' : Fs}
    → Fresh b e name i x room s
    → (p : Reopened b e tfs_o_append x s.fs r fs') → (q : Reopened b e 0 x fs' r' t.fs)
    → (t.mbroker_boxes i).mutex ≡ false
    → (t.mbroker_boxes i).used ≡ true
    → (t.mbroker_boxes i).size ≡ 0
    → Linked b e i p.h q.h room 0 [] t
Linked-start {b} {e} {i} {x} {room} {s} {t} {fs'} v p q unlocked used counted =
    let (in_table, nz, tk) = find_name-listed v.valid.inv.directory _ x v.listed in
    let first : fs' ≡ with_file p.h x (file_size s.fs x) s.fs = p.after in
    let zero_offset : fs' ≡ with_file p.h x 0 s.fs =
      subst (λ n. fs' ≡ with_file p.h x n s.fs) v.empty first in
    let both : t.fs ≡ with_file q.h x 0 (with_file p.h x 0 s.fs) =
      q.after ∙ ap (with_file q.h x 0) zero_offset in
    let apart : q.h ≢ p.h = λ same.
      ground (arith, q.was_free, ap (λ (f : Fs). f.free_open_file_entries q.h) zero_offset) in
    let holds_none : Holds x 0 [] (with_file q.h x 0 (with_file p.h x 0 s.fs)) = record {
      within = omega arith;
      same = λ y lt. absurd (omega arith);
    } in
    subst (λ f. Linked b e i p.h q.h room 0 [] (record t { fs = f })) (sym both)
      (record {
        ready = record {
          valid = subst (IsValid b e) both q.valid;
          in_table = p.in_table;
          opened = ground arith;
          exists = ground arith;
          at_end = ground (arith, v.empty);
          room = ground (arith, v.fits);
          block = λ z. v.block;
        };
        in_table = ground (arith, q.in_table, ap (λ (f : Fs). f.fs_params) zero_offset);
        opened = ground arith;
        apart = apart;
        same_file = ground arith;
        pending =
            subst
              (λ (o : OpenFileEntry).
                Holds o.of_inumber o.of_offset [] (with_file q.h x 0 (with_file p.h x 0 s.fs)))
              (sym (
                update_self (with_file p.h x 0 s.fs).open_file_table q.h
                  (record { of_inumber = x; of_offset = 0 })))
              holds_none;
        up_to_end = ground arith;
        unlocked = unlocked;
        used = used;
        counted = ground arith;
        read_so_far = ground arith;
        texts = tt;
      })

-- From a valid file system, on an empty box without a publisher whose mutex is free and whose name
-- ends in its array, with a free block, two free handles and room for the messages in the schedule, which all end in their
-- arrays: a publisher and a subscriber are admitted, every round of the schedule returns, and the
-- responses that are written hold what a first-in-first-out queue of the messages gives for the
-- same schedule.
pub conversation-deliveries :
    {b : ℕ} {e : ℕ → DirEntry} (write : WriteResult) (name : Name) (i x : ℕ) (moves : List Move)
    (s : Broker)
    → subscriber_response_send write ≡ 0
    → Fresh b e name i x (bytes_of moves) s
    → AreTerminated moves
    → Ends (λ r s'. texts_of r ≡ deliveries [] moves) (conversation write name moves s)
unfolding conversation
conversation-deliveries {e} write name i x moves s sent v t =
    let (h, g, ne, lth, ltg, frh, frg) = v.handles in
    Ends->>= _ _ s
      (begin_publisher-Admitted name s i x h v.valid v.found v.unlocked v.named v.path v.listed lth
        frh v.vacant)
      λ r s1 p.
        let k = p.file.h in
        let same_fs = p.file.after in
        let (h', lt', fr') = another_handle k (file_size s.fs x) v in
        let c1 = record (s.mbroker_boxes i) {
          n_publishers = add_size (s.mbroker_boxes i).n_publishers 1;
          mutex = false;
        } in
        let box1 : s1.mbroker_boxes i ≡ c1 =
          ap (λ (t : Broker). t.mbroker_boxes i) p.after ∙ update_self s.mbroker_boxes i c1 in
        let params : s1.fs.fs_params ≡ s.fs.fs_params = ap (λ (f : Fs). f.fs_params) same_fs in
        let found1 : get_box name s1 ≡ some i =
          ap (get_box name) p.after ∙ get_box-set_box name s i c1 s1.fs refl refl ∙ v.found in
        rw p.result (
          Ends->>= _ _ s1
            (begin_subscriber-Admitted name s1 i x h' p.file.valid found1
              (ap (λ (a : Box). a.mutex) box1)
              (subst (λ (a : Box). length a.name < 32) (sym box1) v.named)
              (ap (λ (a : Box). valid_pathname (some a.name)) box1 ∙ v.path)
              (ap
                  (λ (f : Fs).
                    find_name e (max_dir_entries f) (base_name (some (s1.mbroker_boxes i).name)))
                  same_fs
                ∙ ap (λ (a : Box). find_name e (max_dir_entries s.fs) (base_name (some a.name)))
                    box1
                ∙ v.listed)
              (rw params lt') (ap (λ (f : Fs). f.free_open_file_entries h') same_fs ∙ fr'))
            λ r' s2 q.
              let c2 = record (s1.mbroker_boxes i) {
                n_subscribers = add_size (s1.mbroker_boxes i).n_subscribers 1;
                mutex = false;
              } in
              let box2 : s2.mbroker_boxes i ≡ c2 =
                ap (λ (t : Broker). t.mbroker_boxes i) q.after
                ∙ update_self s1.mbroker_boxes i c2 in
              rw q.result (
                exchange-deliveries write sent i k q.file.h moves 0 [] s2
                  (Linked-start v p.file q.file (ap (λ (a : Box). a.mutex) box2)
                    (ap (λ (a : Box). a.used) box2
                      ∙ ap (λ (a : Box). a.used) box1
                      ∙ get_box-used name s i v.found)
                    (ap (λ (a : Box). a.size) box2 ∙ ap (λ (a : Box). a.size) box1 ∙ v.counted))
                  t))
