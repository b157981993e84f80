-- ===== src/Broker/Admission.antt =====
-- The start of `handle_publisher` and `handle_subscriber` of mbroker/mbroker.c: the box is found, its
-- file is opened and the session is counted.
use so_project.Base.{
  ℕ, ◌<◌, ◌≡◌, refl, ap, ◌≢◌, fun_ext, inl, inr, Bool, true, false, Option, some, Name, length,
  first_index, first_index-Found, update_ind, update_self, ne→not_==, add_size, arith,
}
use so_project.Base.Monad.{
  pure, ◌>>◌, branch, on_index, pure-eq, Ends, Ends->>=, Ends-step, Ends-then, Ends-reads,
  Ends-done,
}
use so_project.Tfs.Types.{DirEntry, free, Fs, max_dir_entries}
use so_project.Tfs.Operations.{
  has_flag, tfs_o_trunc, tfs_o_append, valid_pathname, base_name, tfs_open,
}
use so_project.Tfs.Valid.{IsValid}
use so_project.Tfs.Directory.{find_name}
use so_project.Tfs.Reopen.{Reopened, tfs_open-Reopened}
use so_project.Broker.Boxes.{box_count_max, Box, Broker, set_box, is_box_of, get_box}
use so_project.Broker.Access.{on_fs, modify_box, unlock_box}
use so_project.Broker.Steps.{
  Lifted, on_the_fs, on_fs-Lifted, read_name-eq, lock_box-eq, unlock_box-eq, modify_box-eq,
}
use so_project.Broker.Publishing.{begin_publisher}
use so_project.Broker.Subscribing.{begin_subscriber}

-- A box that is found is in use.
pub get_box-used :
    (name : Name) (s : Broker) (i : ℕ) → get_box name s ≡ some i → (s.mbroker_boxes i).used ≡ true
unfolding get_box
get_box-used name s i h =
    elim (first_index-Found (λ k. is_box_of name (s.mbroker_boxes k)) box_count_max) [
      | inl (missing, all) ↦ cc
      | inr (k, found, lt, t, least) ↦ ground arith
    ]

-- The boxes are found by their names as before when a box keeps its name and its use.
pub get_box-set_box :
    (name : Name) (s : Broker) (i : ℕ) (box : Box) (fs' : Fs)
    → box.name ≡ (s.mbroker_boxes i).name
    → box.used ≡ (s.mbroker_boxes i).used
    → get_box name (set_box i box (record s { fs = fs' })) ≡ get_box name s
unfolding get_box
get_box-set_box name s i box fs' same_name same_use =
    ap (λ (t : ℕ → Bool). first_index t box_count_max 0)
      (fun_ext λ j.
        update_ind (λ (x : Box). is_box_of name x ≡ is_box_of name (s.mbroker_boxes j))
          s.mbroker_boxes i box j (λ here. rw (same_name, same_use, here) refl) (λ ne. refl))

-- A session with the box at `i` starts with handle `fd`, and the box is `counted`.
pub record Admitted (b : ℕ) (e : ℕ → DirEntry) (mode i x : ℕ) (counted : Box) (s : Broker)
    (r : Option (ℕ × ℕ)) (s' : Broker) : Type 0 where
  pub fd : Option ℕ
  pub file : Reopened b e mode x s.fs fd s'.fs
  pub result : r ≡ some (i, file.h)
  pub after : s' ≡ set_box i counted (record s { fs = s'.fs })

module _ {b : ℕ} {e : ℕ → DirEntry} (name : Name) (s : Broker) (i x h : ℕ) (v : IsValid b e s.fs)
    (found : get_box name s ≡ some i) (unlocked : (s.mbroker_boxes i).mutex ≡ false)
    (named : length (s.mbroker_boxes i).name < 32)
    (path : valid_pathname (some (s.mbroker_boxes i).name) ≡ true)
    (listed : find_name e (max_dir_entries s.fs) (base_name (some (s.mbroker_boxes i).name))
      ≡ some x)
    (lt : h < s.fs.fs_params.max_open_files_count) (fr : s.fs.free_open_file_entries h ≡ free) where
  abbrev held : Box
  held = record (s.mbroker_boxes i) { mutex = true }

  held_box : (set_box i held s).mbroker_boxes i ≡ held
  held_box = update_self s.mbroker_boxes i held

  open_box :
      (mode : ℕ)
      → has_flag mode tfs_o_trunc ≡ false
      → Ends
          (Lifted (Reopened b e mode x s.fs) (set_box i held s))
          (on_fs (tfs_open (some (s.mbroker_boxes i).name) mode) (set_box i held s))
  open_box mode keep =
      on_fs-Lifted (tfs_open (some (s.mbroker_boxes i).name) mode) (set_box i held s)
        (tfs_open-Reopened s.fs (some (s.mbroker_boxes i).name) mode x h v path listed keep lt fr)

  -- The last steps: the session is counted, and the mutex let go.
  count_in :
      (mode : ℕ) (f : Box → Box) (r : Option ℕ) (fs' : Fs) (o : Reopened b e mode x s.fs r fs')
      → Ends (Admitted b e mode i x (record (f held) { mutex = false }) s) (
          (do modify_box i f; unlock_box i; pure (some (i, o.h)))
            (set_box i held (record s { fs = fs' })))
  count_in mode f r fs' o =
      let t = record s { fs = fs' } in
      Ends-then _ _ (set_box i held t) (modify_box-eq i f held t) (
        Ends-then _ _ (set_box i (f held) t) (unlock_box-eq i (f held) t) (
          Ends-done (pure-eq (some (i, o.h)) _)
            (record { fd = r; file = o; result = refl; after = refl })))

  pub begin_subscriber-Admitted :
      Ends
        (Admitted b e 0 i x
          (record (s.mbroker_boxes i) {
            n_subscribers = add_size (s.mbroker_boxes i).n_subscribers 1;
            mutex = false;
          })
          s)
        (begin_subscriber true name s)
  unfolding begin_subscriber branch on_index
  begin_subscriber-Admitted = Ends-reads _ _ s (
      rw found (
        Ends-then _ _ s (lock_box-eq i s unlocked) (
          Ends-step _ _ (set_box i held s) (read_name-eq i held s named) (
            Ends->>= _ _ (set_box i held s) (open_box 0 refl) λ r t done. elim done [
              | on_the_fs fs' et o ↦
                  rw (et, o.result)
                    (count_in 0 (λ a. record a { n_subscribers = add_size a.n_subscribers 1 }) r fs'
                      o)
            ]))))

  pub begin_publisher-Admitted :
      (s.mbroker_boxes i).n_publishers ≢ 1
      → Ends
          (Admitted b e tfs_o_append i x
            (record (s.mbroker_boxes i) {
              n_publishers = add_size (s.mbroker_boxes i).n_publishers 1;
              mutex = false;
            })
            s)
          (begin_publisher true name s)
  unfolding begin_publisher branch on_index
  begin_publisher-Admitted vacant = Ends-reads _ _ s (
      rw found (
        Ends-then _ _ s (lock_box-eq i s unlocked) (
          Ends-reads _ _ (set_box i held s) (
            Ends-step _ _ (set_box i held s) (read_name-eq i held s named) (
              rw (held_box, ne→not_== _ _ vacant)
                (Ends->>= _ _ (set_box i held s) (open_box tfs_o_append refl) λ r t done.
                  elim done [
                    | on_the_fs fs' et o ↦
                        rw (et, o.result)
                          (count_in tfs_o_append
                            (λ a. record a { n_publishers = add_size a.n_publishers 1 }) r fs' o)
                  ]))))))
