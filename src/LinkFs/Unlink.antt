-- ===== src/LinkFs/Unlink.antt =====
-- `tfs_unlink` of fs/operations.c, branch by branch.
use so_project.Base.{
  ℕ, ◌<◌, ◌≡◌, refl, ap, ◌≢◌, inl, inr, Bool, true, false, Option, none, some, update, ◌⊎◌, ◌==◌,
  ==→eq, not_==→ne, Bool-cases, Option-cases, if◌then◌else◌, Name, arith,
}
use so_project.Base.Monad.{
  pure, ◌>>=◌, ◌>>◌, reads, branch, on_index, Ends, Ends-then, Ends-step, Ends-reads, Ends-modify,
  Ends-done,
}
use so_project.Tfs.Types.{DirEntry, taken}
use so_project.Tfs.Operations.{base_name}
use so_project.Tfs.Directory.{IsEntry}
use so_project.Tfs.DirUpdate.{blank}
use so_project.LinkFs.Types.{Volume, V, max_dir_entries}
use so_project.Tfs.Steps.{base-length}
use so_project.LinkFs.Tables.{clear_dir_entry}
use so_project.LinkFs.State.{set_inode}
use so_project.LinkFs.Operations.{
  is_link, is_busy, drop_link, tfs_unlink, lock_inode, unlock_return,
}
use so_project.LinkFs.Valid.{Inv, Unlocked, IsValid}
use so_project.LinkFs.Calls.{
  relock, locked, lock_inode-eq, unlock_return-eq, with_entries, root_dir-eq, tfs_lookup-eq,
  inode_get-eq, is_open, is_in_open_file_table-eq, clear_dir_entry-eq, unlock_both-eq,
}
use so_project.LinkFs.Update.{Inv-locks, dropped, removed, inode_delete-eq}
use so_project.LinkFs.Link.{lookup, lookup_listed, both_free}

-- What `tfs_unlink` does, for the root directory `e` in block `b`.
pub data UnlinkResult (b : ℕ) (e : ℕ → DirEntry) (target : Option Name) (s : Volume) (r : Bool)
    (s' : Volume) : Type 0 where
  missing : lookup e target s ≡ none → r ≡ false → s' ≡ s → UnlinkResult b e target s r s'
  busy :
      (i : ℕ)
      → lookup e target s ≡ some i
      → is_link (s.inode_table i).i_node_type ≡ false
      → is_open i s ≡ true
      → r ≡ false
      → s' ≡ s
      → UnlinkResult b e target s r s'
  drops :
      (i k : ℕ)
      → lookup e target s ≡ some i
      → IsEntry e (max_dir_entries s) (base_name target) i k
      → (s.inode_table i).i_links_count ≢ 1
      → r ≡ true
      → s' ≡ dropped b e k i s
      → UnlinkResult b e target s r s'
  removes :
      (i k : ℕ)
      → lookup e target s ≡ some i
      → IsEntry e (max_dir_entries s) (base_name target) i k
      → (s.inode_table i).i_links_count ≡ 1
      → is_link (s.inode_table i).i_node_type ≡ true ⊎ is_open i s ≡ false
      → r ≡ true
      → s' ≡ removed b e k i s
      → UnlinkResult b e target s r s'

-- The end of `tfs_unlink`, when the file is not open.
abbrev clear_link : Option Name → ℕ → V Bool
clear_link target i = do
  cleared ← clear_dir_entry 0 (base_name target)
  branch cleared (do lock_inode i; drop_link 0 i) (unlock_return 0 false)

module _ {b : ℕ} {e : ℕ → DirEntry} {s : Volume} (v : Inv b e s) (u : Unlocked s) where
  is_busy-eq :
      (i : ℕ)
      → i < s.fs_params.max_inode_count
      → is_busy i (locked 0 s)
        ≡ some (if is_link (s.inode_table i).i_node_type then false else is_open i s, locked 0 s)
  unfolding is_busy reads ◌>>=◌ branch pure
  is_busy-eq i lt = ground (arith, is_in_open_file_table-eq i (locked 0 s) lt u.files_free)

  drop_link-UnlinkResult :
      (target : Option Name) (i k : ℕ)
      → lookup e target s ≡ some i
      → IsEntry e (max_dir_entries s) (base_name target) i k
      → i < s.fs_params.max_inode_count
      → s.freeinode_ts i ≡ taken
      → is_link (s.inode_table i).i_node_type ≡ true ⊎ is_open i s ≡ false
      → Ends
          (UnlinkResult b e target s)
          (drop_link 0 i (locked i (locked 0 (with_entries b (update e k blank) s))))
  unfolding drop_link branch set_inode
  drop_link-UnlinkResult target i k q h lt t idle =
      elim (Bool-cases ((s.inode_table i).i_links_count == 1)) [
        | inl last ↦ Ends-reads _ _ _ (
            rw last (
              Ends-step _ _ _
                (inode_delete-eq i (locked i (locked 0 (with_entries b (update e k blank) s)))
                  u.table_free u.blocks_free lt t)
                (Ends-done (unlock_both-eq i true _) (
                  removes i k q h (==→eq _ 1 last) idle refl
                    (both_free v u i (λ l. record (removed b e k i s) { inode_rwl = l }))))))
        | inr more ↦ Ends-reads _ _ _ (
            rw more (
              Ends-modify _ _ _ (
                Ends-done (unlock_both-eq i true _) (
                  drops i k q h (not_==→ne _ 1 more) refl
                    (both_free v u i (λ l. record (dropped b e k i s) { inode_rwl = l }))))))
      ]

  -- The file is not open: its entry goes.
  clear_link-UnlinkResult :
      (target : Option Name) (i : ℕ)
      → lookup e target s ≡ some i
      → is_link (s.inode_table i).i_node_type ≡ true ⊎ is_open i s ≡ false
      → Ends (UnlinkResult b e target s) (clear_link target i (locked 0 s))
  unfolding branch
  clear_link-UnlinkResult target i q idle =
      let (valid, k, h, lt, nz, t) = lookup_listed v u target i q in
      let r = (Inv-locks (update s.inode_rwl 0 true) v).root in
      Ends-step _ _ (locked 0 s)
        (clear_dir_entry-eq r (base_name target) i k v.names (base-length target valid) h)
        (Ends-then _ _ _
          (lock_inode-eq i (locked 0 (with_entries b (update e k blank) s))
            (ground (arith, u.inodes_free i)))
          (drop_link-UnlinkResult target i k q h lt t idle))

  -- The rest, after the test for an open file.
  unless_busy :
      (target : Option Name) (i : ℕ)
      → lookup e target s ≡ some i
      → Ends (UnlinkResult b e target s) (
          branch
            (if is_link (s.inode_table i).i_node_type then false else is_open i s)
            (unlock_return 0 false)
            (clear_link target i)
            (locked 0 s))
  unfolding branch
  unless_busy target i q =
      let relocked =
        ap (λ l. record s { inode_rwl = l }) (relock s.inode_rwl 0 (u.inodes_free 0)) in
      elim (Bool-cases (is_link (s.inode_table i).i_node_type)) [
        | inl symb ↦ rw symb (clear_link-UnlinkResult target i q (inl symb))
        | inr plain ↦ rw plain (elim (Bool-cases (is_open i s)) [
          | inl opened ↦
              rw opened
                (Ends-done (unlock_return-eq 0 false _) (busy i q plain opened refl relocked))
          | inr idle ↦ rw idle (clear_link-UnlinkResult target i q (inr idle))
        ])
      ]

  tfs_unlink_lem : (target : Option Name) → Ends (UnlinkResult b e target s) (tfs_unlink target s)
  unfolding tfs_unlink on_index branch
  tfs_unlink_lem target =
      let r = (Inv-locks (update s.inode_rwl 0 true) v).root in
      let relocked =
        ap (λ l. record s { inode_rwl = l }) (relock s.inode_rwl 0 (u.inodes_free 0)) in
      Ends-step _ _ s (root_dir-eq v.root) (
        Ends-then _ _ s (lock_inode-eq 0 s (u.inodes_free 0)) (
          Ends-step _ _ (locked 0 s) (tfs_lookup-eq r target)
            (elim (Option-cases (lookup e target s)) [
              | inl q ↦ rw q (Ends-done (unlock_return-eq 0 false _) (missing q refl relocked))
              | inr (i, q) ↦
                  let (valid, k, h, lt, nz, t) = lookup_listed v u target i q in
                  rw q (
                    Ends-step _ _ (locked 0 s) (inode_get-eq i (locked 0 s) lt)
                      (Ends-step _ _ (locked 0 s) (is_busy-eq i lt) (unless_busy target i q)))
            ])))

-- From a valid volume, `tfs_unlink` returns, with one of the outcomes of `UnlinkResult`.
pub tfs_unlink-UnlinkResult :
    {b : ℕ} {e : ℕ → DirEntry} (s : Volume) (target : Option Name)
    → IsValid b e s
    → Ends (UnlinkResult b e target s) (tfs_unlink target s)
tfs_unlink-UnlinkResult s target v = tfs_unlink_lem v.inv v.unlocked target
