-- ===== src/Broker/PublisherLaws.antt =====
-- The whole of `handle_publisher` of mbroker/mbroker.c, among other threads.
use so_project.Base.{
  ℕ, ◌<◌, ◌≡◌, refl, ap, sym, subst, not, length, ◌∙◌, ◌≢◌, inl, inr, Bool, true, false, Bool-cases,
  Option, none, some, Name, List, ◌==◌, not_==→ne, ne→not_==, ==→eq, eq→==, update_self, add_size,
  sub_size, size_max, arith,
}
use so_project.Base.Monad.{
  branch, on_index, pure-eq, Ends, Ends->>=, Ends->>, Ends-step, Ends-then, Ends-reads, Ends-done,
  Ends-mono,
}
use so_project.Tfs.Types.{DirEntry, free, max_dir_entries}
use so_project.Tfs.Operations.{valid_pathname, base_name, tfs_close}
use so_project.Tfs.Valid.{IsValid}
use so_project.Tfs.Handles.{Closes-IsValid, tfs_close-Closes}
use so_project.Tfs.Directory.{find_name}
use so_project.Broker.Boxes.{Box, Broker, set_box, get_box}
use so_project.Broker.Steps.{
  on_the_fs, on_fs-Lifted, read_name-eq, lock_box-eq, unlock_box-eq, modify_box-eq,
}
use so_project.Broker.Publishing.{Arrival, begin_publisher, end_publisher, handle_publisher}
use so_project.Broker.Admission.{begin_publisher-Admitted}
use so_project.Broker.PublisherSteps.{
  InSession, AreFair, AreEnded, InSession-set_box, publish_loop-InSession, Reopened-Live,
}

-- What `handle_publisher` leaves.
pub record Served (i n : ℕ) (served : Bool) (s' : Broker) : Type 0 where
  pub files : (b : ℕ) × (e : ℕ → DirEntry) × IsValid b e s'.fs
  pub unlocked : (s'.mbroker_boxes i).mutex ≡ false
  pub counted : (s'.mbroker_boxes i).n_publishers ≡ n
  pub outcome : served ≡ not (n == 1)

module _ (i n : ℕ) (small : n < size_max) where
  -- The session is counted out.
  end_publisher-Served :
      (k : ℕ) (s : Broker)
      → n ≢ 1
      → InSession i k (add_size n 1) s
      → Ends (λ r t. Served i n true t) (end_publisher i k s)
  unfolding end_publisher
  end_publisher-Served k s vacant v =
      let held = record (s.mbroker_boxes i) { mutex = true } in
      let out = record held { n_publishers = sub_size held.n_publishers 1 } in
      let free_box = record out { mutex = false } in
      let counted : sub_size held.n_publishers 1 ≡ n =
        ap (λ c. sub_size c 1) v.counted ∙ omega arith in
      Ends-then _ _ s (lock_box-eq i s v.unlocked) (
        Ends-then _ _ (set_box i held s) (modify_box-eq i _ held s) (
          Ends-then _ _ (set_box i out s) (unlock_box-eq i out s) (
            Ends->> _ _ (set_box i free_box s)
              (on_fs-Lifted (tfs_close (some k)) (set_box i free_box s)
                (tfs_close-Closes (some k) s.fs v.live.valid.unlocked))
              λ r t done. elim done [
                | on_the_fs fs' et cl ↦ rw et (
                    Ends-done (pure-eq tt _) (record {
                      files =
                          (v.live.b, v.live.e, Closes-IsValid (some k) s.fs r fs' v.live.valid cl);
                      unlocked = ap (λ (a : Box). a.mutex) (update_self s.mbroker_boxes i free_box);
                      counted =
                          ap (λ (a : Box). a.n_publishers) (update_self s.mbroker_boxes i free_box)
                          ∙ counted;
                      outcome =
                          let other : (n == 1) ≡ false = ne→not_== n 1 vacant in rw other refl;
                    }))
              ])))

  -- How a session starts: it is refused, or it is on and counted.
  data Starts (r : Option (ℕ × ℕ)) (t : Broker) : Type 0 where
    denied : r ≡ none → Served i n false t → Starts r t
    starts : (k : ℕ) → r ≡ some (i, k) → n ≢ 1 → InSession i k (add_size n 1) t → Starts r t

  module _ {b : ℕ} {e : ℕ → DirEntry} (name : Name) (s : Broker) (x h : ℕ) (v : IsValid b e s.fs)
      (found : get_box name s ≡ some i) (unlocked : (s.mbroker_boxes i).mutex ≡ false)
      (counted : (s.mbroker_boxes i).n_publishers ≡ n)
      (named : length (s.mbroker_boxes i).name < 32)
      (path : valid_pathname (some (s.mbroker_boxes i).name) ≡ true)
      (listed : find_name e (max_dir_entries s.fs) (base_name (some (s.mbroker_boxes i).name))
        ≡ some x)
      (lt : h < s.fs.fs_params.max_open_files_count)
      (fr : s.fs.free_open_file_entries h ≡ free) where
    -- A box with one publisher admits no other.
    begin_publisher-denied : n ≡ 1 → Ends Starts (begin_publisher true name s)
    unfolding begin_publisher branch on_index
    begin_publisher-denied one =
        let box = s.mbroker_boxes i in
        let held = record box { mutex = true } in
        let back = record box { mutex = false } in
        let busy : (box.n_publishers == 1) ≡ true = eq→== _ _ (counted ∙ one) in
        Ends-reads _ _ s (
          rw found (
            Ends-then _ _ s (lock_box-eq i s unlocked) (
              Ends-reads _ _ (set_box i held s) (
                Ends-step _ _ (set_box i held s) (read_name-eq i held s named) (
                  rw (update_self s.mbroker_boxes i held, busy)
                    (Ends-then _ _ (set_box i held s) (unlock_box-eq i held s) (
                      Ends-done (pure-eq none _) (
                        denied refl (record {
                          files = (b, e, v);
                          unlocked = ap (λ (a : Box). a.mutex) (update_self s.mbroker_boxes i back);
                          counted =
                              ap (λ (a : Box). a.n_publishers) (update_self s.mbroker_boxes i back)
                              ∙ counted;
                          outcome = rw one refl;
                        })))))))))

    begin_publisher-Starts : Ends Starts (begin_publisher true name s)
    begin_publisher-Starts = elim (Bool-cases (n == 1)) [
      | inl one ↦ begin_publisher-denied (==→eq n 1 one)
      | inr other ↦
          let vacant : n ≢ 1 = not_==→ne n 1 other in
          Ends-mono
            (begin_publisher-Admitted name s i x h v found unlocked named path listed lt fr
              (λ one. vacant (sym counted ∙ one)))
            λ r t a. starts a.file.h a.result vacant (
              subst (InSession i a.file.h (add_size n 1)) (sym a.after) (
                InSession-set_box i a.file.h (add_size n 1) _ s t.fs
                  (Reopened-Live (base_name (some (s.mbroker_boxes i).name)) v listed a.file) refl
                  (ap (λ c. add_size c 1) counted)))
    ]

    -- A publisher is served, from a valid file system, at a box that is found, whose mutex is free,
    -- whose count of publishers is a `uint64_t`, whose name ends in its array and is the path of a
    -- file in the directory, with a free handle: `handle_publisher` returns, when the publisher's
    -- pipe opens, every request that is read ends in its array, and the other threads, as they run
    -- in between, keep the session on: its handle open, its file there, the mutex free and the count
    -- of publishers. It returns 0 just when the count of publishers is not one before, and else -1.
    -- The file system is valid then, the mutex free, and the count what it was before the session.
    pub handle_publisher-Served :
        (arrivals : List Arrival)
        → AreFair i (add_size n 1) arrivals
        → AreEnded arrivals
        → Ends (Served i n) (handle_publisher true name arrivals s)
    unfolding handle_publisher
    handle_publisher-Served arrivals fair ended = Ends->>= _ _ s begin_publisher-Starts λ r t st.
        elim st [
          | denied er out ↦ rw er (Ends-done (pure-eq false t) out)
          | starts k er vacant on ↦ rw er (
              Ends->> _ _ t (publish_loop-InSession i k (add_size n 1) arrivals t fair ended on)
                λ u t' on'.
                  Ends->> _ _ t' (end_publisher-Served k t' vacant on')
                    λ u' t'' out. Ends-done (pure-eq true t'') out)
        ]
