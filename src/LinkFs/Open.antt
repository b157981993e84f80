-- ===== src/LinkFs/Open.antt =====
-- `tfs_open` of fs/operations.c on a file that is there, and on a path that names nothing.
use so_project.Base.{
  ℕ, ◌<◌, ◌≡◌, refl, sym, ap, ◌∙◌, ◌&&◌, inl, inr, Bool, true, false, Option, none, some, update,
  ltb, first_index-Found, Bool-cases, if◌then◌else◌, Name, arith,
}
use so_project.Base.Monad.{
  pure, ◌>>◌, modify, branch, on_index, Ends, Ends-step, Ends-then, Ends-reads, Ends-modify,
  Ends-done, pure-eq, >>-eq,
}
use so_project.Tfs.Types.{DirEntry, free, taken, is_free}
use so_project.Tfs.Operations.{has_flag, tfs_o_trunc, tfs_o_append}
use so_project.Tfs.Alloc.{is_free→eq, not_is_free→eq}
use so_project.LinkFs.Types.{Volume, V, unlock}
use so_project.LinkFs.State.{set_inode, data_block_free}
use so_project.LinkFs.Tables.{add_to_open_file_table, fill_entry}
use so_project.LinkFs.Operations.{is_link, open_plain, open_existing}
use so_project.LinkFs.Valid.{Inv, Unlocked}
use so_project.LinkFs.Calls.{
  relock, lock-eq, unlock-locked, inode_get-eq, locked, lock_inode-eq, unlock_inode-eq,
}
use so_project.LinkFs.Update.{Unlocked-tables, without_block, data_block_free-eq}

-- The inode `i` emptied: its block is free, though the inode still has its number.
abbrev pub truncated : ℕ → Volume → Volume
truncated i s = record s {
  free_blocks = without_block (s.inode_table i) s;
  inode_table = update s.inode_table i (record (s.inode_table i) { i_size = 0 });
}

-- The volume after `open_plain` has truncated the file, if that is asked for.
abbrev pub prepared : ℕ → ℕ → Volume → Volume
prepared mode i s =
    if has_flag mode tfs_o_trunc && ltb 0 (s.inode_table i).i_size then truncated i s else s

-- The initial offset of an open file.
abbrev pub start_offset : ℕ → ℕ → Volume → ℕ
start_offset mode i s = if has_flag mode tfs_o_append then (s.inode_table i).i_size else 0

abbrev pub with_file : ℕ → ℕ → ℕ → Volume → Volume
with_file h i offset s = record s {
  open_file_table = update s.open_file_table h (record { of_inumber = i; of_offset = offset });
  free_open_file_entries = update s.free_open_file_entries h taken;
}

-- What `add_to_open_file_table` does: the first free entry is filled, if there is one.
pub data Opens (i offset : ℕ) (s : Volume) (r : Option ℕ) (s' : Volume) : Type 0 where
  too_many :
      ((h : ℕ) → h < s.fs_params.max_open_files_count → s.free_open_file_entries h ≡ taken)
      → r ≡ none
      → s' ≡ s
      → Opens i offset s r s'
  opens :
      (h : ℕ)
      → h < s.fs_params.max_open_files_count
      → s.free_open_file_entries h ≡ free
      → ((k : ℕ) → k < h → s.free_open_file_entries k ≡ taken)
      → r ≡ some h
      → s' ≡ with_file h i offset s
      → Opens i offset s r s'

module _ (i offset : ℕ) (s : Volume) (files : s.open_file_table_rwl ≡ false)
    (all : (k : ℕ) → s.entry_lock k ≡ false) where
  -- The mutex of the entry, and the lock of the table, are let go.
  files_free :
      (h : ℕ) (t : Bool → (ℕ → Bool) → Volume)
      → t false (update (update s.entry_lock h true) h false) ≡ t s.open_file_table_rwl s.entry_lock
  files_free h t =
      ap (λ l. t false l) (relock s.entry_lock h (all h)) ∙ ap (λ x. t x s.entry_lock) (sym files)

  fill_entry-Opens :
      (h : ℕ)
      → h < s.fs_params.max_open_files_count
      → s.free_open_file_entries h ≡ free
      → ((k : ℕ) → k < h → s.free_open_file_entries k ≡ taken)
      → Ends (Opens i offset s) (fill_entry i offset h (record s { open_file_table_rwl = true }))
  unfolding fill_entry unlock
  fill_entry-Opens h lt q least = Ends-modify _ _ _ (
      Ends-then _ _ _ (lock-eq _ _ _ (all h)) (
        Ends-modify _ _ _ (
          Ends-modify _ _ _ (
            Ends-modify _ _ _ (
              Ends-done (pure-eq _ _) (
                opens h lt q least refl (
                  files_free h (λ x l. record (with_file h i offset s) {
                    open_file_table_rwl = x;
                    entry_lock = l;
                  }))))))))

  pub add_to_open_file_table-Opens : Ends (Opens i offset s) (add_to_open_file_table i offset s)
  unfolding add_to_open_file_table on_index unlock
  add_to_open_file_table-Opens = Ends-then _ _ s (lock-eq _ _ s files) (
      Ends-reads _ _ _
        (elim (first_index-Found (λ k. is_free (s.free_open_file_entries k))
          s.fs_params.max_open_files_count) [
            | inl (q, none_free) ↦ rw q (
                Ends-modify _ _ _ (
                  Ends-done (pure-eq _ _) (
                    too_many (λ h lt. not_is_free→eq _ (none_free h lt)) refl
                      (ap (λ x. record s { open_file_table_rwl = x }) (sym files)))))
            | inr (h, q, lt, t, least) ↦
                rw q
                  (fill_entry-Opens h lt (is_free→eq _ t) (λ k lk. not_is_free→eq _ (least k lk)))
          ]))

module _ {b : ℕ} {e : ℕ → DirEntry} {s : Volume} (v : Inv b e s) (u : Unlocked s) where
  -- Truncation, if it is asked for, while the file is locked.
  prepare-eq :
      (mode i : ℕ)
      → branch
          (has_flag mode tfs_o_trunc && ltb 0 (s.inode_table i).i_size)
          (do
            data_block_free (s.inode_table i).i_data_block
            set_inode i (record (s.inode_table i) { i_size = 0 }))
          (pure tt)
          (locked i s)
        ≡ some (tt, locked i (prepared mode i s))
  unfolding branch pure set_inode modify
  prepare-eq mode i =
      elim (Bool-cases (has_flag mode tfs_o_trunc && ltb 0 (s.inode_table i).i_size)) [
        | inr no_need ↦ rw no_need
        | inl asked ↦
            let full : ltb 0 (s.inode_table i).i_size ≡ true = ground arith in
            let first =
              data_block_free-eq (s.inode_table i).i_data_block (locked i s) u.blocks_free in
            rw (asked, full) (>>-eq _ _ (locked i s) first)
      ]

  pub prepared-Unlocked : (mode i : ℕ) → Unlocked (prepared mode i s)
  prepared-Unlocked mode i =
      elim (Bool-cases (has_flag mode tfs_o_trunc && ltb 0 (s.inode_table i).i_size)) [
        | inr no_need ↦ rw no_need u
        | inl asked ↦ rw asked (Unlocked-tables _ _ _ _ u)
      ]

  open_plain-Opens :
      (mode i : ℕ)
      → let t = prepared mode i s in
        Ends (Opens i (start_offset mode i t) t) (open_plain mode i (locked i s))
  unfolding open_plain
  open_plain-Opens mode i = Ends-reads _ _ _ (
      Ends-then _ _ _ (prepare-eq mode i) (
        Ends-reads _ _ _ (
          Ends-then _ _ _ (unlock_inode-eq i _) (
            rw (unlock-locked i (prepared mode i s) ((prepared-Unlocked mode i).inodes_free i)) (
              add_to_open_file_table-Opens i _ (prepared mode i s)
                (prepared-Unlocked mode i).files_free (prepared-Unlocked mode i).entries_free)))))

  -- The file `i` is there, and is no symbolic link.
  pub open_existing-Opens :
      (m : Name → V (Option ℕ)) (mode i : ℕ)
      → i < s.fs_params.max_inode_count
      → is_link (s.inode_table i).i_node_type ≡ false
      → let t = prepared mode i s in
        Ends (Opens i (start_offset mode i t) t) (open_existing m mode i s)
  unfolding open_existing on_index branch
  open_existing-Opens m mode i lt plain = Ends-step _ _ s (inode_get-eq i s lt) (
      Ends-then _ _ s (lock_inode-eq i s (u.inodes_free i))
        (Ends-reads _ _ _ (rw plain (open_plain-Opens mode i))))
