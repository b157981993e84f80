-- ===== src/Broker/Deletion.antt =====
-- Deleting boxes: `delete_box` of mbroker/box.c.
use so_project.Base.{
  ℕ, ◌≡◌, refl, ap, ◌∙◌, ◌≢◌, inl, inr, Bool, true, false, Option, none, some, Name, if_false,
  subst, Bool-cases, Option-cases, arith,
}
use so_project.Tfs.Types.{DirEntry, Fs, max_dir_entries}
use so_project.Base.Monad.{Ends-eq}
use so_project.Tfs.Operations.{tfs_unlink, base_name}
use so_project.Tfs.Valid.{IsValid}
use so_project.Tfs.Directory.{find_name}
use so_project.Tfs.Unlink.{tfs_unlink-Unlinked}
use so_project.Broker.Boxes.{
  Broker, RespErr, unknown_box, delete_box_failed, get_box, remove_at, delete_at, delete_box,
  set_box,
}

some_inj : {o : Option ℕ} {i j : ℕ} → o ≡ some i → o ≡ some j → i ≡ j
some_inj p q = cc

-- What `delete_box` leaves, for the place `i` of the box, if there is one.
pub record Deleted (b : ℕ) (e : ℕ → DirEntry) (name : Name) (s : Broker) (r : Option RespErr)
    (s' : Broker) : Type 0 where
  pub entries_after : ℕ → DirEntry
  pub valid : IsValid b entries_after s'.fs
  pub unknown : get_box name s ≡ none → (r ≡ some unknown_box) × (s' ≡ s)
  pub gone :
      (i : ℕ)
      → get_box name s ≡ some i
      → r ≡ none
      → ((s'.mbroker_boxes i).used ≡ false)
        × (find_name entries_after
              (max_dir_entries s.fs)
              (base_name (some (s.mbroker_boxes i).name))
            ≡ none)
  pub stuck :
      (i : ℕ)
      → get_box name s ≡ some i
      → (err : RespErr) → r ≡ some err
      → (err ≡ delete_box_failed)
        × ((s'.mbroker_boxes i).mutex ≡ true)
        × ((s'.mbroker_boxes i).used ≡ (s.mbroker_boxes i).used)
  pub other_boxes : (j : ℕ) → get_box name s ≢ some j → s'.mbroker_boxes j ≡ s.mbroker_boxes j

module _ (i : ℕ) (s : Broker) where
  remove_at-eq_failed :
      (t : Fs)
      → tfs_unlink (some (s.mbroker_boxes i).name) s.fs ≡ some (false, t)
      → remove_at i s
        ≡ some (
          some delete_box_failed,
          set_box i (record (s.mbroker_boxes i) { mutex = true }) (record s { fs = t }),
        )
  unfolding remove_at
  remove_at-eq_failed t run = rw (run, remove_at) refl

  remove_at-eq_gone :
      (t : Fs)
      → tfs_unlink (some (s.mbroker_boxes i).name) s.fs ≡ some (true, t)
      → remove_at i s
        ≡ some (
          none,
          set_box i
              (record (s.mbroker_boxes i) { mutex = false; used = false })
              (record s { fs = t }),
        )
  unfolding remove_at
  remove_at-eq_gone t run = rw (run, remove_at) refl

delete_box-eq_unknown :
    (name : Name) (s : Broker)
    → get_box name s ≡ none
    → delete_box name s ≡ some (some unknown_box, s)
unfolding delete_box
delete_box-eq_unknown name s h = rw (h, delete_box) refl

delete_box-eq_at :
    (name : Name) (s : Broker) (i : ℕ)
    → get_box name s ≡ some i
    → (s.mbroker_boxes i).mutex ≡ false
    → delete_box name s ≡ remove_at i s
unfolding delete_box delete_at
delete_box-eq_at name s i h unheld = rw (h, delete_box) (if_false _ _ _ unheld)

-- From a valid file system, when the mutex of the box is free, `delete_box` returns, with a valid
-- file system. A name that no box has is refused and nothing changes. When it succeeds, the box is
-- not used any more and its file is gone; when the file cannot be removed, the box stays, with its
-- mutex held. No other box changes.
pub delete_box-Deleted :
    {b : ℕ} {e : ℕ → DirEntry} (name : Name) (s : Broker)
    → IsValid b e s.fs
    → ((i : ℕ) → get_box name s ≡ some i → (s.mbroker_boxes i).mutex ≡ false)
    → (r : Option RespErr) × (s' : Broker) × (delete_box name s ≡ some (r, s'))
      × Deleted b e name s r s'
delete_box-Deleted {e} name s v unheld = elim (Option-cases (get_box name s)) [
  | inl missing ↦ (
    some unknown_box,
    s,
    delete_box-eq_unknown name s missing,
    record {
      entries_after = e;
      valid = v;
      unknown = λ q. (refl, refl);
      gone = λ i q q'. cc;
      stuck = λ i q err q'. cc;
      other_boxes = λ j q. refl;
    },
  )
  | inr (i, found) ↦
      let box = s.mbroker_boxes i in
      let (r, t, run, un) = Ends-eq (tfs_unlink-Unlinked s.fs (some box.name) v) in
      elim (Bool-cases r) [
        | inr refused_it ↦ (
          some delete_box_failed,
          set_box i (record box { mutex = true }) (record s { fs = t }),
          delete_box-eq_at name s i found (unheld i found)
              ∙ remove_at-eq_failed i s t (run ∙ ap (λ (o : Bool). some (o, t)) refused_it),
          record {
            entries_after = un.entries_after;
            valid = un.valid;
            unknown = λ q. cc;
            gone = λ j q q'. cc;
            stuck = λ j q err q'. (cc, ground (arith, found), ground (arith, found));
            other_boxes = λ j q. ground (arith, found);
          },
        )
        | inl unlinked ↦ (
          none,
          set_box i (record box { mutex = false; used = false }) (record s { fs = t }),
          delete_box-eq_at name s i found (unheld i found)
              ∙ remove_at-eq_gone i s t (run ∙ ap (λ (o : Bool). some (o, t)) unlinked),
          record {
            entries_after = un.entries_after;
            valid = un.valid;
            unknown = λ q. cc;
            gone = λ j q q'. (
              ground (arith, found),
              subst
                  (λ x.
                    find_name un.entries_after (max_dir_entries s.fs)
                      (base_name (some (s.mbroker_boxes x).name))
                    ≡ none)
                  (some_inj found q) (un.gone unlinked),
            );
            stuck = λ j q err q'. cc;
            other_boxes = λ j q. ground (arith, found);
          },
        )
      ]
]
