-- ===== src/Tfs/Open.antt =====
-- What `tfs_open` of fs2/operations.c does, branch by branch.
use so_project.Base.{
  ℕ, ◌≤◌, ◌<◌, ◌≡◌, refl, ap, ◌≢◌, ◌⊎◌, inl, inr, true, false, Option, none, some, update,
  update_self, Bool-cases, Name, length, arith,
}
use so_project.Tfs.Types.{max_file_name, DirEntry, Inode, free, taken, Fs, max_dir_entries}
use so_project.Base.Monad.{
  ◌>>=◌, ◌>>◌, branch, on_index, Ends, Ends->>=, Ends-then, Ends-step, Ends-done, Ends-mono,
}
use so_project.Tfs.State.{inode_delete, inode_get}
use so_project.Tfs.Operations.{
  has_flag, tfs_o_creat, tfs_o_trunc, valid_pathname, base_name, unlock_return, open_existing,
  open_entry, open_new, open_valid, tfs_open,
}
use so_project.Tfs.Valid.{Root, Inv, IsValid}
use so_project.Tfs.Handles.{mutex_lock-eq, unlock_return-eq}
use so_project.Tfs.Directory.{find_name, find_name-cases}
use so_project.Tfs.Steps.{
  lock, unlock, Enters, open_entry-Enters, truncate_if, start_offset, open_existing-eq, empty_file,
  with_inode, with_free_inode, inode_create-Creates, inode_delete_empty, Root-other, undo_taken,
  base-length, tfs_lookup-eq, inode_get-eq,
}
use so_project.Tfs.DirUpdate.{used}
use so_project.Tfs.DirCalls.{with_entries, misfit, crowded, adds, add_dir_entry-Adds}

-- What `tfs_open` does, for the root directory `e` in block `b`.
pub data Opens (b : ℕ) (e : ℕ → DirEntry) (name : Option Name) (mode : ℕ) (s : Fs) (r : Option ℕ)
    (s' : Fs) : Type 0 where
  invalid : valid_pathname name ≡ false → r ≡ none → s' ≡ unlock s → Opens b e name mode s r s'
  absent :
      valid_pathname name ≡ true
      → find_name e (max_dir_entries s) (base_name name) ≡ none
      → has_flag mode tfs_o_creat ≡ false
      → r ≡ none
      → s' ≡ unlock s
      → Opens b e name mode s r s'
  existing :
      (i : ℕ)
      → valid_pathname name ≡ true
      → find_name e (max_dir_entries s) (base_name name) ≡ some i
      → Enters i
          (start_offset mode i (truncate_if (has_flag mode tfs_o_trunc) i (lock s)))
          (truncate_if (has_flag mode tfs_o_trunc) i (lock s))
          r
          s'
      → Opens b e name mode s r s'
  no_inode :
      valid_pathname name ≡ true
      → find_name e (max_dir_entries s) (base_name name) ≡ none
      → has_flag mode tfs_o_creat ≡ true
      → ((j : ℕ) → j < s.fs_params.max_inode_count → s.freeinode_ts j ≡ taken)
      → r ≡ none
      → s' ≡ unlock s
      → Opens b e name mode s r s'
  no_entry :
      (i : ℕ)
      → valid_pathname name ≡ true
      → find_name e (max_dir_entries s) (base_name name) ≡ none
      → has_flag mode tfs_o_creat ≡ true
      → i < s.fs_params.max_inode_count
      → s.freeinode_ts i ≡ free
      → (max_file_name ≤ length (base_name name))
        ⊎ ((k : ℕ) → k < max_dir_entries s → (e k).d_inumber ≢ none)
      → r ≡ none
      → s' ≡ unlock (with_free_inode i s)
      → Opens b e name mode s r s'
  created :
      (i j : ℕ)
      → valid_pathname name ≡ true
      → find_name e (max_dir_entries s) (base_name name) ≡ none
      → has_flag mode tfs_o_creat ≡ true
      → i < s.fs_params.max_inode_count
      → s.freeinode_ts i ≡ free
      → j < max_dir_entries s
      → (e j).d_inumber ≡ none
      → 0 < length (base_name name)
      → length (base_name name) < max_file_name
      → Enters i 0 (with_entries b (update e j (used (base_name name) i)) (with_inode i s)) r s'
      → Opens b e name mode s r s'

-- A free inode is not the root directory's.
pub free-ne-Root :
    {b : ℕ} {e : ℕ → DirEntry} (s : Fs) {i : ℕ}
    → Root b e s.fs_params s.inode_table s.freeinode_ts s.fs_data s.free_blocks
    → s.freeinode_ts i ≡ free
    → i ≢ 0
free-ne-Root s {i} r h z = ground (arith, r.root_taken, ap s.freeinode_ts z)

module _ {b : ℕ} {e : ℕ → DirEntry} (s : Fs) (v : Inv b e s) (name : Option Name) (mode : ℕ) where
  abbrev after_insert : ℕ → ℕ → Fs
  after_insert i j = with_entries b (update e j (used (base_name name) i)) (with_inode i (lock s))

  too_long :
      valid_pathname name ≡ true
      → (length (base_name name) ≡ 0) ⊎ (max_file_name ≤ length (base_name name))
      → max_file_name ≤ length (base_name name)
  too_long ok h = omega (arith, base-length name ok)

  -- Undo: the inode is deleted again.
  undo-Opens :
      (i : ℕ)
      → i < s.fs_params.max_inode_count
      → s.freeinode_ts i ≡ free
      → ((s' : Fs) → s' ≡ unlock (with_free_inode i s) → Opens b e name mode s none s')
      → Ends
          (Opens b e name mode s)
          ((inode_delete i >> unlock_return none) (with_inode i (lock s)))
  undo-Opens i lt fr post =
      Ends-then _ _ _
        (inode_delete_empty i (with_inode i (lock s)) lt (update_self s.freeinode_ts i taken)
          (ap (λ (n : Inode). n.i_size) (update_self s.inode_table i empty_file)))
        (Ends-done (unlock_return-eq none _) (post _ (ap unlock (undo_taken i (lock s) fr))))

  open_new-Opens :
      valid_pathname name ≡ true
      → find_name e (max_dir_entries s) (base_name name) ≡ none
      → has_flag mode tfs_o_creat ≡ true
      → Ends (Opens b e name mode s) (open_new name 0 (lock s))
  unfolding open_new on_index branch
  open_new-Opens ok none_such creat =
      Ends->>= _ _ (lock s) (inode_create-Creates (lock s)) λ r s1 made. elim made [
        | inl (er, es, all) ↦
            rw (er, es)
              (Ends-done (unlock_return-eq none (lock s))
                (no_inode ok none_such creat all refl refl))
        | inr (i, er, es, lt, fr) ↦
            let nz : i ≢ 0 = free-ne-Root s v.root fr in
            rw (er, es)
              (Ends->>= _ _ (with_inode i (lock s))
                (add_dir_entry-Adds (with_inode i (lock s))
                  (Root-other (lock s) i empty_file taken v.root nz) (base_name name) i)
                λ r2 s2 added. elim added [
                  | misfit e2 es2 why ↦
                      rw (e2, es2)
                        (undo-Opens i lt fr (λ t q.
                          no_entry i ok none_such creat lt fr (inl (too_long ok why)) refl q))
                  | crowded e2 es2 why ↦
                      rw (e2, es2)
                        (undo-Opens i lt fr
                          (λ t q. no_entry i ok none_such creat lt fr (inr why) refl q))
                  | adds j e2 es2 ltj frj long short ↦
                      rw (e2, es2)
                        (Ends-mono (open_entry-Enters i 0 (after_insert i j)) (λ r3 s3 entered.
                          created i j ok none_such creat lt fr ltj frj long short entered))
                ])
      ]

  open_found-Opens :
      valid_pathname name ≡ true
      → (i : ℕ) → find_name e (max_dir_entries s) (base_name name) ≡ some i
      → (i < s.fs_params.max_inode_count) × (i ≢ 0) × (s.freeinode_ts i ≡ taken)
      → Ends (Opens b e name mode s) (
          (inode_get i >>= λ inode. open_existing mode inode >>= λ offset. open_entry i offset)
            (lock s))
  open_found-Opens ok i q (lt, nz, t) = Ends-step _ _ (lock s) (inode_get-eq i (lock s) lt) (
      Ends-step _ _ (lock s) (open_existing-eq b mode i (lock s) (v.storage.file_ok i nz t))
        (Ends-mono (open_entry-Enters i _ _) (λ r s' entered. existing i ok q entered)))

  open_valid-Opens :
      valid_pathname name ≡ true → Ends (Opens b e name mode s) (open_valid name mode (lock s))
  unfolding open_valid on_index branch
  open_valid-Opens ok = Ends-step _ _ (lock s) (inode_get-eq 0 (lock s) v.root.root_in) (
      Ends-step _ _ (lock s) (tfs_lookup-eq (lock s) name v.root ok)
        (elim (find_name-cases v.directory.names (base_name name)) [
          | inl (q, none_such) ↦ rw q (elim (Bool-cases (has_flag mode tfs_o_creat)) [
            | inl creat ↦ rw creat (open_new-Opens ok q creat)
            | inr no_creat ↦
                rw no_creat
                  (Ends-done (unlock_return-eq none (lock s)) (absent ok q no_creat refl refl))
          ])
          | inr (i, q, (k, h)) ↦ rw q (open_found-Opens ok i q (v.directory.listed k i h.0 h.1))
        ]))

-- From a valid state, `tfs_open` returns, with one of the outcomes of `Opens`.
pub tfs_open-Opens :
    {b : ℕ} {e : ℕ → DirEntry} (s : Fs) (name : Option Name) (mode : ℕ)
    → IsValid b e s
    → Ends (Opens b e name mode s) (tfs_open name mode s)
unfolding tfs_open branch
tfs_open-Opens s name mode v =
    Ends-then _ _ s (mutex_lock-eq s v.unlocked) (elim (Bool-cases (valid_pathname name)) [
      | inl ok ↦ rw ok (open_valid-Opens s v.inv name mode ok)
      | inr bad ↦ rw bad (Ends-done (unlock_return-eq none (lock s)) (invalid bad refl refl))
    ])
