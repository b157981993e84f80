-- ===== src/LinkFs/Created.antt =====
-- `tfs_open` of fs/operations.c with O_CREAT, on a path that names nothing: names and handles.
use so_project.Base.{
  ℕ, suc, ◌<◌, ◌≡◌, refl, sym, ap, ◌∙◌, true, false, Option, none, some, update, if_true, if_false,
  Name, length, str_eq, str_eq_refl, arith,
}
use so_project.Base.Monad.{branch, on_index, Ends, Ends-step, Ends-then, Ends-mono}
use so_project.Tfs.Types.{DirEntry}
use so_project.Tfs.Operations.{valid_pathname, base_name, has_flag, tfs_o_creat}
use so_project.Tfs.Steps.{base-length}
use so_project.Tfs.Directory.{find_name}
use so_project.Tfs.DirUpdate.{used, find_name-add}
use so_project.LinkFs.Types.{Volume, max_dir_entries}
use so_project.LinkFs.Operations.{open_valid, tfs_open}
use so_project.LinkFs.Valid.{IsValid}
use so_project.LinkFs.Calls.{locked, lock_inode-eq, inode_get-eq, tfs_lookup-eq}
use so_project.LinkFs.Update.{Inv-locks, Unlocked-tables}
use so_project.LinkFs.Open.{Opens, too_many, opens}
use so_project.LinkFs.OpenLaws.{IsValid-Opens}
use so_project.LinkFs.CreateLaws.{
  created, Creates, no_inode, no_entry, creates, open_new-Creates, Inv-created, Inv-scrapped,
}

-- After `tfs_open` with O_CREAT, on a name that is not in the root directory `e`.
pub record Made (b : ℕ) (e : ℕ → DirEntry) (name : Name) (s : Volume) (r : Option ℕ) (s' : Volume)
    : Type 0 where
  pub outcome : Creates b e name s r s'
  pub entries_after : ℕ → DirEntry
  pub valid : IsValid b entries_after s'
  pub named :
      (h : ℕ)
      → r ≡ some h
      → find_name entries_after (max_dir_entries s) name ≡ some (s'.open_file_table h).of_inumber
  pub others :
      (other : Name)
      → str_eq name other ≡ false
      → find_name entries_after (max_dir_entries s) other ≡ find_name e (max_dir_entries s) other

opened_inode :
    (i offset : ℕ) (s : Volume) (r : Option ℕ) (s' : Volume)
    → Opens i offset s r s'
    → (h : ℕ) → r ≡ some h
    → (s'.open_file_table h).of_inumber ≡ i
opened_inode i offset s r s' (too_many all er es) h q = ground arith
opened_inode i offset s r s' (opens k lt fr least er es) h q = rw es (ground arith)

module _ {b : ℕ} {e : ℕ → DirEntry} (s : Volume) (v : IsValid b e s) where
  Creates-Made :
      (name : Name)
      → 0 < length name
      → find_name e (max_dir_entries s) name ≡ none
      → (r : Option ℕ) (s' : Volume) → Creates b e name s r s'
      → Made b e name s r s'
  Creates-Made name long new r s' (no_inode all er es) = record {
    outcome = no_inode all er es;
    entries_after = e;
    valid = rw es v;
    named = λ h q. ground arith;
    others = λ other d. refl;
  }
  Creates-Made name long new r s' (no_entry i q bad er es) = record {
    outcome = no_entry i q bad er es;
    entries_after = e;
    valid = rw es (record {
      inv = Inv-scrapped v.inv v.unlocked i q;
      unlocked = Unlocked-tables _ _ _ _ v.unlocked;
    });
    named = λ h q. ground arith;
    others = λ other d. refl;
  }
  Creates-Made name long new r s' (creates i j lt q ltj fr short o) =
      let after = find_name-add v.inv.names j i name ltj fr long short new in
      let start : IsValid b (update e j (used name i)) (created b e j name i s) = record {
        inv = Inv-created v.inv v.unlocked i j name q ltj fr lt long short new;
        unlocked = Unlocked-tables _ _ _ _ v.unlocked;
      } in
      record {
        outcome = creates i j lt q ltj fr short o;
        entries_after = update e j (used name i);
        valid = IsValid-Opens r s' start o;
        named = λ h q'.
            after name
            ∙ if_true _ _ _ (str_eq_refl name)
            ∙ ap some (sym (opened_inode i 0 (created b e j name i s) r s' o h q'));
        others = λ other d. after other ∙ if_false _ _ _ d;
      }

  -- On a valid volume, with O_CREAT, a valid path that names nothing: `tfs_open` returns, with one of
  -- the outcomes of `Creates`, in a valid volume. With a handle, the path names the file that the
  -- handle is on. No other name is touched.
  pub tfs_open-Made :
      (fuel : ℕ) (name : Option Name) (mode : ℕ)
      → valid_pathname name ≡ true
      → has_flag mode tfs_o_creat ≡ true
      → find_name e (max_dir_entries s) (base_name name) ≡ none
      → Ends (Made b e (base_name name) s) (tfs_open (suc fuel) name mode s)
  unfolding tfs_open branch open_valid on_index
  tfs_open-Made fuel name mode ok flag new =
      let r = (Inv-locks (update s.inode_rwl 0 true) v.inv).root in
      rw ok (
        Ends-step _ _ s (inode_get-eq 0 s v.inv.root.root_in) (
          Ends-then _ _ s (lock_inode-eq 0 s (v.unlocked.inodes_free 0)) (
            Ends-step _ _ (locked 0 s) (tfs_lookup-eq r name) (
              rw (ok, new, flag)
                (Ends-mono (open_new-Creates v.inv v.unlocked name ok)
                  (λ r' s' o. Creates-Made (base_name name) (base-length name ok) new r' s' o))))))
