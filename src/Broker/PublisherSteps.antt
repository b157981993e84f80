-- ===== src/Broker/PublisherSteps.antt =====
-- The rounds of `handle_publisher` of mbroker/mbroker.c, among other threads.
use so_project.Base.{
  ℕ, ◌^◌, ◌<◌, ◌≡◌, refl, ap, sym, subst, ◌∙◌, if◌then◌else◌, inl, inr, true, false, Bool-cases,
  Option, none, some, Option-cases, Name, List, [], ◌∷◌, length, lt→ltb, update_self, add_size,
  arith,
}
use so_project.Base.Monad.{
  branch, on_index, pure-eq, Ends, Ends->>=, Ends-then, Ends-reads, Ends-modify, Ends-done,
  Ends-mono,
}
use so_project.Tfs.Types.{DirEntry, taken, max_dir_entries, Fs}
use so_project.Tfs.Operations.{tfs_write, tfs_o_append, has_flag}
use so_project.Tfs.Valid.{IsValid}
use so_project.Tfs.Directory.{find_name, find_name-listed}
use so_project.Tfs.Reopen.{Reopened}
use so_project.Tfs.Contents.{file_size, Written, tfs_write-Written}
use so_project.Protocol.Memory.{char_at, field}
use so_project.Protocol.Requests.{message_length, PublisherRequest}
use so_project.Broker.Boxes.{Box, Broker, set_box, is_count, write_message}
use so_project.Broker.Steps.{on_the_fs, on_fs-Lifted, lock_box-eq, unlock_box-eq, modify_box-eq}
use so_project.Broker.Publishing.{
  ReadResult, end_of_file, partial, request, Arrival, publish_message, publish_request,
  publish_read, publish_loop,
}

-- A valid file system where handle `k` is open on a file that is still there.
pub record Live (k : ℕ) (s : Fs) : Type 0 where
  pub b : ℕ
  pub e : ℕ → DirEntry
  pub valid : IsValid b e s
  pub in_table : k < s.fs_params.max_open_files_count
  pub opened : s.free_open_file_entries k ≡ taken
  pub exists : s.freeinode_ts (s.open_file_table k).of_inumber ≡ taken

-- A session with the box at `i` and handle `k` is on: its file is there, no thread holds the mutex,
-- and `n` publishers are counted.
pub record InSession (i k n : ℕ) (s : Broker) : Type 0 where
  pub live : Live k s.fs
  pub unlocked : (s.mbroker_boxes i).mutex ≡ false
  pub counted : (s.mbroker_boxes i).n_publishers ≡ n

-- What the other threads do in a round leaves the session on.
abbrev pub IsFair : ℕ → ℕ → Arrival → Type 0
IsFair i n a =
    ((k : ℕ) (s : Broker) → InSession i k n s → InSession i k n (a.meanwhile s))
    × ((k : ℕ) (s : Broker) → InSession i k n s → InSession i k n (a.before_lock s))

abbrev pub AreFair : ℕ → ℕ → List Arrival → Type 0
AreFair i n [] = Unit {0}
AreFair i n (a ∷ rest) = IsFair i n a × AreFair i n rest

-- The requests that are read have messages that end in their arrays.
abbrev pub AreEnded : List Arrival → Type 0
AreEnded [] = Unit {0}
AreEnded (a ∷ rest) =
    ((r : PublisherRequest)
      → a.read ≡ request r
      → length (field message_length 0 r.message) < message_length)
    × AreEnded rest

Live-Written :
    {b : ℕ} {e : ℕ → DirEntry} {k : ℕ} {buffer : ℕ → ℕ} {n : ℕ} {s : Fs} {r : Option ℕ} {s' : Fs}
    → k < s.fs_params.max_open_files_count
    → s.free_open_file_entries k ≡ taken
    → s.freeinode_ts (s.open_file_table k).of_inumber ≡ taken
    → Written b e k buffer n s r s'
    → Live k s'
Live-Written {b} {e} {k} {s} {s'} lt t exists w = record {
  b = b;
  e = e;
  valid = w.valid;
  in_table = ground (arith, w.same_params);
  opened = w.in_use k ∙ t;
  exists = ap s'.freeinode_ts w.same_file ∙ w.inodes_in_use _ ∙ exists;
}

tfs_write-Live :
    (k n : ℕ) (buffer : ℕ → ℕ) (s : Fs)
    → Live k s
    → n < 2 ^ 63
    → Ends (λ r s'. Live k s') (tfs_write (some k) buffer n s)
tfs_write-Live k n buffer s v lt =
    Ends-mono (tfs_write-Written s k buffer n v.valid v.in_table v.opened v.exists lt)
      (λ r s'. Live-Written v.in_table v.opened v.exists)

-- Whatever the writes give, the handle stays as it should be.
write_message-Live :
    (k : ℕ) (message : Name) (s : Fs)
    → Live k s
    → length message < 2 ^ 63
    → Ends (λ r s'. Live k s') (write_message (some k) message s)
unfolding write_message branch on_index
write_message-Live k message s v lt =
    Ends->>= _ _ s (tfs_write-Live k (length message) (char_at message) s v lt) λ ret t w.
      elim (Bool-cases (is_count ret (length message))) [
        | inr short ↦ rw short (Ends-done (pure-eq none t) w)
        | inl whole ↦ rw whole (
            Ends->>= _ _ t (tfs_write-Live k 1 (λ p. 0) t w (omega arith)) λ last u z.
              elim (Option-cases last) [
                | inl bad ↦ rw bad (Ends-done (pure-eq none u) z)
                | inr (c, good) ↦ rw good (Ends-done (pure-eq ret u) z)
              ])
      ]

module _ (i k n : ℕ) where
  -- The box may change, but for the number of publishers.
  pub InSession-set_box :
      (box : Box) (s : Broker) (fs' : Fs)
      → Live k fs'
      → box.mutex ≡ false
      → box.n_publishers ≡ n
      → InSession i k n (set_box i box (record s { fs = fs' }))
  InSession-set_box box s fs' v free counted = record {
    live = v;
    unlocked = ap (λ (a : Box). a.mutex) (update_self s.mbroker_boxes i box) ∙ free;
    counted = ap (λ (a : Box). a.n_publishers) (update_self s.mbroker_boxes i box) ∙ counted;
  }

  publish_message-InSession :
      (message : Name) (s : Broker)
      → InSession i k n s
      → length message < 2 ^ 63
      → Ends (λ r s'. InSession i k n s') (publish_message i k message s)
  unfolding publish_message on_index
  publish_message-InSession message s v lt =
      let held = record (s.mbroker_boxes i) { mutex = true } in
      Ends-then _ _ s (lock_box-eq i s v.unlocked) (
        Ends->>= _ _ (set_box i held s)
          (on_fs-Lifted (write_message (some k) message) (set_box i held s)
            (write_message-Live k message s.fs v.live lt))
          λ ret t done. elim done [
            | on_the_fs fs' et live ↦
                let t' = record s { fs = fs' } in
                elim (Option-cases ret) [
                  | inl bad ↦
                      rw (et, bad)
                        (Ends-then _ _ (set_box i held t') (unlock_box-eq i held t') (
                          Ends-done (pure-eq false _) (
                            InSession-set_box (record held { mutex = false }) s fs' live refl
                              v.counted)))
                  | inr (c, good) ↦
                      let grown = record held { size = add_size held.size (add_size c 1) } in
                      rw (et, good)
                        (Ends-then _ _ (set_box i held t') (modify_box-eq i _ held t') (
                          Ends-then _ _ (set_box i grown t') (unlock_box-eq i grown t') (
                            Ends-done (pure-eq true _) (
                              InSession-set_box (record grown { mutex = false }) s fs' live refl
                                v.counted))))
                ]
          ])

  publish_read-InSession :
      (before_lock : Broker → Broker) (read : ReadResult) (s : Broker)
      → ((t : Broker) → InSession i k n t → InSession i k n (before_lock t))
      → ((r : PublisherRequest)
          → read ≡ request r
          → length (field message_length 0 r.message) < message_length)
      → InSession i k n s
      → Ends (λ r s'. InSession i k n s') (publish_read i k before_lock read s)
  unfolding publish_read publish_request branch
  publish_read-InSession l end_of_file s keeps ends_inside v = Ends-done (pure-eq false s) v
  publish_read-InSession l partial s keeps ends_inside v = Ends-done (pure-eq false s) v
  publish_read-InSession l (request r) s keeps ends_inside v =
      let fits = ends_inside r refl in
      Ends-reads _ _ s (elim (Bool-cases (s.mbroker_boxes i).used) [
        | inr gone ↦ rw gone (Ends-done (pure-eq false s) v)
        | inl used ↦ rw used (
            Ends-modify l _ s (
              rw (lt→ltb _ _ fits) (
                publish_message-InSession (field message_length 0 r.message) (l s) (keeps s v)
                  (omega arith))))
      ])

  pub publish_loop-InSession :
      (arrivals : List Arrival) (s : Broker)
      → AreFair i n arrivals
      → AreEnded arrivals
      → InSession i k n s
      → Ends (λ r s'. InSession i k n s') (publish_loop i k arrivals s)
  unfolding publish_loop branch
  publish_loop-InSession [] s f d v = Ends-done (pure-eq tt s) v
  publish_loop-InSession (a ∷ rest) s (fair, f) (ended, d) v = Ends-modify a.meanwhile _ s (
      Ends->>= _ _ (a.meanwhile s)
        (publish_read-InSession a.before_lock a.read (a.meanwhile s) (fair.1 k) ended
          (fair.0 k s v))
        λ more t w. elim (Bool-cases more) [
          | inl again ↦ rw again (publish_loop-InSession rest t f d w)
          | inr over ↦ rw over (Ends-done (pure-eq tt t) w)
        ])

-- A handle that `tfs_open` gives on a file of the directory is one to start with.
pub Reopened-Live :
    {b : ℕ} {e : ℕ → DirEntry} {mode x : ℕ} {s : Fs} {r : Option ℕ} {s' : Fs} (name : Name)
    → IsValid b e s
    → find_name e (max_dir_entries s) name ≡ some x
    → (o : Reopened b e mode x s r s') → Live o.h s'
Reopened-Live {b} {e} {mode} {x} {s} {r} {s'} name v listed o =
    let (in_dir, nz, tk) = find_name-listed v.inv.directory name x listed in
    let start = if has_flag mode tfs_o_append then file_size s x else 0 in
    subst (Live o.h) (sym o.after) (record {
      b = b;
      e = e;
      valid = subst (IsValid b e) o.after o.valid;
      in_table = o.in_table;
      opened = ground arith;
      exists = ground arith;
    })
