-- ===== src/LinkFs/SymLink.antt =====
-- `tfs_sym_link` of fs/operations.c, once its link's inode is made.
use so_project.Base.{
  ℕ, ◌≤◌, ◌<◌, ◌≡◌, refl, sym, ap, ◌∙◌, fun_ext, ◌≢◌, ◌⊎◌, inl, inr, Bool, true, false, Option,
  none, some, update, update_self, leb, lt→ltb, first_index-Found, if◌then◌else◌, Name, length,
  arith,
}
use so_project.Base.Monad.{
  pure, ◌>>=◌, ◌>>◌, reads, modify, abort, branch, on_index, Ends, Ends-step, Ends-then, Ends-reads,
  Ends-modify, Ends->>=, Ends-done, pure-eq,
}
use so_project.Tfs.Types.{max_file_name, DirEntry, free, taken, bytes, is_free}
use so_project.Tfs.Operations.{valid_pathname, base_name}
use so_project.Tfs.Steps.{base-length}
use so_project.Tfs.DirUpdate.{used}
use so_project.Tfs.Alloc.{is_free→eq, not_is_free→eq}
use so_project.Protocol.Memory.{char_at}
use so_project.LinkFs.Types.{t_link, Inode, Volume, V, max_dir_entries, unlock, set_inode_lock}
use so_project.LinkFs.CreateLaws.{locks_free, free_nonroot}
use so_project.LinkFs.State.{set_inode, data_block_get, data_block_alloc, inode_delete}
use so_project.LinkFs.Tables.{add_dir_entry}
use so_project.LinkFs.Operations.{unlock_return, link_to, store_path}
use so_project.LinkFs.Valid.{Root, Inv, Unlocked}
use so_project.LinkFs.Calls.{
  locked, lock-eq, unlock_return-eq, with_entries, data_block_get-eq, Adds, misfit, crowded, adds,
  add_dir_entry-Adds,
}
use so_project.LinkFs.Update.{without_block, delete_inode, inode_delete-eq}
use so_project.LinkFs.Create.{fresh, with_new}

-- What `data_block_alloc` does.
data Allocs (s : Volume) (r : Option ℕ) (s' : Volume) : Type 0 where
  full :
      ((d : ℕ) → d < s.fs_params.max_block_count → s.free_blocks d ≡ taken)
      → r ≡ none
      → s' ≡ s
      → Allocs s r s'
  allocs :
      (d : ℕ)
      → d < s.fs_params.max_block_count
      → s.free_blocks d ≡ free
      → r ≡ some d
      → s' ≡ record s { free_blocks = update s.free_blocks d taken }
      → Allocs s r s'

data_block_alloc-Allocs :
    (s : Volume) → s.free_blocks_rwl ≡ false → Ends (Allocs s) (data_block_alloc s)
unfolding data_block_alloc on_index unlock
data_block_alloc-Allocs s lock_free = Ends-then _ _ s (lock-eq _ _ s lock_free) (
    Ends-reads _ _ _
      (elim (first_index-Found (λ k. is_free (s.free_blocks k)) s.fs_params.max_block_count) [
        | inl (q, none_free) ↦ rw q (
            Ends-modify _ _ _ (
              Ends-done (pure-eq _ _) (
                full (λ h lt. not_is_free→eq _ (none_free h lt)) refl
                  (ap (λ x. record s { free_blocks_rwl = x }) (sym lock_free)))))
        | inr (h, q, lt, t, least) ↦ rw q (
            Ends-modify _ _ _ (
              Ends-modify _ _ _ (
                Ends-done (pure-eq _ _) (
                  allocs h lt (is_free→eq _ t) refl (
                    ap
                      (λ x. record s {
                        free_blocks = update s.free_blocks h taken;
                        free_blocks_rwl = x;
                      })
                      (sym lock_free))))))
      ]))

-- A path in a block that held `c`.
abbrev pub stored : Name → (ℕ → ℕ) → ℕ → ℕ
stored target c k = if leb k (length target) then char_at target k else c k

abbrev pub link_node : ℕ → Inode
link_node d = record { i_node_type = t_link; i_links_count = 1; i_size = 0; i_data_block = some d }

-- The volume after the inode `i` is left as a link, though it is free.
abbrev pub unlinked : ℕ → Volume → Volume
unlinked i s = record s { inode_table = update s.inode_table i (fresh t_link) }

-- The volume with the path in the block `d`, taken, and the block in the inode `i`.
abbrev with_path : Name → (ℕ → ℕ) → ℕ → ℕ → Volume → Volume
with_path target c i d s = record s {
  inode_table = update s.inode_table i (link_node d);
  free_blocks = update s.free_blocks d taken;
  fs_data = update s.fs_data d (bytes (stored target c));
}

-- The volume after the link is made, and named by the entry `j`.
abbrev pub sym_linked : ℕ → (ℕ → DirEntry) → ℕ → Name → Name → (ℕ → ℕ) → ℕ → ℕ → Volume → Volume
sym_linked b e j name target c i d s =
    with_entries b (update e j (used name i))
      (record (with_path target c i d s) { freeinode_ts = update s.freeinode_ts i taken })

-- What becomes of a link whose inode `i` is there: with no block, and with no room for the entry, it
-- is deleted, and in the second case its block stays taken.
pub data PathResult (b : ℕ) (e : ℕ → DirEntry) (target : Name) (name : Name) (i : ℕ) (s : Volume)
    (r : Bool) (s' : Volume) : Type 0 where
  no_block :
      ((d : ℕ) → d < s.fs_params.max_block_count → s.free_blocks d ≡ taken)
      → r ≡ false
      → s' ≡ unlinked i s
      → PathResult b e target name i s r s'
  no_entry :
      (d : ℕ) (c : ℕ → ℕ)
      → s.free_blocks d ≡ free
      → (max_file_name ≤ length name) ⊎ ((k : ℕ) → k < max_dir_entries s → (e k).d_inumber ≢ none)
      → r ≡ false
      → s' ≡ with_path target c i d s
      → PathResult b e target name i s r s'
  points :
      (d : ℕ) (c : ℕ → ℕ) (j : ℕ)
      → d < s.fs_params.max_block_count
      → s.free_blocks d ≡ free
      → j < max_dir_entries s
      → (e j).d_inumber ≡ none
      → 0 < length name
      → length name < max_file_name
      → r ≡ true
      → s' ≡ sym_linked b e j name target c i d s
      → PathResult b e target name i s r s'

store_path-eq :
    (target : Name) (c : ℕ → ℕ) (s : Volume)
    → length target < s.fs_params.block_size
    → store_path target (bytes c) s ≡ some (bytes (stored target c), s)
unfolding store_path ◌>>=◌ reads branch pure
store_path-eq target c s h = rw (lt→ltb _ _ h)

-- The end of `link_to`, after the entry is added or not.
abbrev finish_path : ℕ → Bool → V Bool
finish_path i added = branch added (unlock_return 0 true) (do inode_delete i; unlock_return 0 false)

module _ {b : ℕ} {e : ℕ → DirEntry} {s : Volume} (v : Inv b e s) (u : Unlocked s) (target : Name)
    (i : ℕ) (lt : i < s.fs_params.max_inode_count) (i_free : s.freeinode_ts i ≡ free) where
  -- The volume when the path is in its block and the block in the inode.
  abbrev prepared_link : ℕ → (ℕ → ℕ) → Volume
  prepared_link d c = record (with_new t_link i (locked 0 s)) {
    inode_table = update (update s.inode_table i (fresh t_link)) i (link_node d);
    free_blocks = update s.free_blocks d taken;
    fs_data = update s.fs_data d (bytes (stored target c));
  }

  Root-prepared : (d : ℕ) (c : ℕ → ℕ) → s.free_blocks d ≡ free → Root b e (prepared_link d c)
  Root-prepared d c q =
      let nz = free_nonroot v u i i_free in
      record {
        root_in = v.root.root_in;
        root_taken = ground (arith, v.root.root_taken);
        root_type = ground (arith, v.root.root_type);
        root_block = ground (arith, v.root.root_block);
        block_in = v.root.block_in;
        block_taken = ground (arith, v.root.block_taken);
        block_entries = ground (arith, v.root.block_entries, v.root.block_taken);
        few = v.root.few;
      }

  once : (x : Inode) → update (update s.inode_table i (fresh t_link)) i x ≡ update s.inode_table i x
  once x = fun_ext λ k. ground arith

  back_to_free : update (update s.freeinode_ts i taken) i free ≡ s.freeinode_ts
  back_to_free = fun_ext λ k. ground arith

  -- `inode_delete` on the link: its block stays taken.
  deleted_link :
      (d : ℕ) (c : ℕ → ℕ)
      → set_inode_lock 0 false (delete_inode i (prepared_link d c)) ≡ with_path target c i d s
  deleted_link d c =
      let t = prepared_link d c in
      let kept : without_block (t.inode_table i) t ≡ t.free_blocks = ground arith in
      ap (λ l. record (delete_inode i t) { inode_rwl = l }) (locks_free v u i)
      ∙ ap (λ f. record (delete_inode i t) { inode_rwl = s.inode_rwl; freeinode_ts = f })
          back_to_free
      ∙ ap
          (λ f. record t {
            inode_rwl = s.inode_rwl;
            freeinode_ts = s.freeinode_ts;
            free_blocks = f;
          })
          kept
      ∙ ap (λ f. record (with_path target c i d s) { inode_table = f }) (once (link_node d))

  deleted_fresh :
      set_inode_lock 0 false (delete_inode i (with_new t_link i (locked 0 s))) ≡ unlinked i s
  deleted_fresh =
      let t = with_new t_link i (locked 0 s) in
      let kept : without_block (t.inode_table i) t ≡ t.free_blocks = ground arith in
      ap (λ l. record (delete_inode i t) { inode_rwl = l }) (locks_free v u i)
      ∙ ap (λ f. record (delete_inode i t) { inode_rwl = s.inode_rwl; freeinode_ts = f })
          back_to_free
      ∙ ap (λ f. record (unlinked i s) { free_blocks = f }) kept

  finish_path-PathResult :
      (name : Name) (d : ℕ) (c : ℕ → ℕ)
      → d < s.fs_params.max_block_count
      → s.free_blocks d ≡ free
      → 0 < length name
      → (a : Bool) (t : Volume) → Adds b (max_dir_entries s) e name i (prepared_link d c) a t
      → Ends (PathResult b e target name i s) (finish_path i a t)
  unfolding branch
  finish_path-PathResult name d c ltd q long a t (misfit qa qt bad) =
      rw (qa, qt)
        (Ends-then _ _ _
          (inode_delete-eq i (prepared_link d c) u.table_free u.blocks_free lt
            (update_self s.freeinode_ts i taken))
          (Ends-done (unlock_return-eq 0 false _) (
            no_entry d c q (elim bad [ inl z ↦ absurd (omega arith) | inr l ↦ inl l ]) refl
              (deleted_link d c))))
  finish_path-PathResult name d c ltd q long a t (crowded qa qt every) =
      rw (qa, qt)
        (Ends-then _ _ _
          (inode_delete-eq i (prepared_link d c) u.table_free u.blocks_free lt
            (update_self s.freeinode_ts i taken))
          (Ends-done (unlock_return-eq 0 false _)
            (no_entry d c q (inr every) refl (deleted_link d c))))
  finish_path-PathResult name d c ltd q long a t (adds j qa qt ltj fr _ short) =
      let made : Volume = with_entries b (update e j (used name i)) (prepared_link d c) in
      rw (qa, qt)
        (Ends-done (unlock_return-eq 0 true _) (
          points d c j ltd q ltj fr long short refl (
            ap (λ l. record made { inode_rwl = l }) (locks_free v u i)
            ∙ ap (λ f. record (sym_linked b e j name target c i d s) { inode_table = f })
                (once (link_node d)))))

  -- What `link_to` does after `data_block_alloc`.
  abbrev path_steps : Option Name → Option ℕ → V Bool
  path_steps link_name new_bnum =
      on_index new_bnum (do inode_delete i; unlock_return 0 false)
        (λ new_bnum. do
          block ← data_block_get (some new_bnum)
          on_index block abort (λ block. do
            content ← reads (λ s. s.fs_data block)
            written ← store_path target content
            modify (λ s. record s { fs_data = update s.fs_data block written })
            node ← reads (λ s. s.inode_table i)
            set_inode i (record node { i_data_block = some new_bnum })
            added ← add_dir_entry 0 (base_name link_name) i
            finish_path i added))

  path_steps-PathResult :
      (link_name : Option Name)
      → valid_pathname link_name ≡ true
      → length target < s.fs_params.block_size
      → ((d : ℕ) → d ≢ b → (c : ℕ → ℕ) × (s.fs_data d ≡ bytes c))
      → (r : Option ℕ) (t : Volume) → Allocs (with_new t_link i (locked 0 s)) r t
      → Ends (PathResult b e target (base_name link_name) i s) (path_steps link_name r t)
  unfolding on_index set_inode
  path_steps-PathResult link_name ok fits plain r t (full every er et) =
      rw (er, et)
        (Ends-then _ _ _
          (inode_delete-eq i (with_new t_link i (locked 0 s)) u.table_free u.blocks_free lt
            (update_self s.freeinode_ts i taken))
          (Ends-done (unlock_return-eq 0 false _) (no_block every refl deleted_fresh)))
  path_steps-PathResult link_name ok fits plain r t (allocs d ltd q er et) =
      let (c, qc) = plain d (ground (arith, v.root.block_taken)) in
      let t1 : Volume = record (with_new t_link i (locked 0 s)) {
        free_blocks = update s.free_blocks d taken;
      } in
      rw (er, et)
        (Ends-step _ _ t1 (data_block_get-eq d t1 ltd) (
          Ends-reads _ _ _ (
            rw qc (
              Ends-step _ _ t1 (store_path-eq target c t1 fits) (
                Ends-modify _ _ _ (
                  Ends-reads _ _ _ (
                    rw (update_self s.inode_table i (fresh t_link)) (
                      Ends-modify _ _ _ (
                        Ends->>= (add_dir_entry 0 (base_name link_name) i) (finish_path i)
                          (prepared_link d c)
                          (add_dir_entry-Adds (Root-prepared d c q) (base_name link_name) i)
                          (finish_path-PathResult (base_name link_name) d c ltd q
                            (base-length link_name ok)))))))))))

  pub link_to-PathResult :
      (link_name : Option Name)
      → valid_pathname link_name ≡ true
      → length target < s.fs_params.block_size
      → ((d : ℕ) → d ≢ b → (c : ℕ → ℕ) × (s.fs_data d ≡ bytes c))
      → Ends
          (PathResult b e target (base_name link_name) i s)
          (link_to target link_name 0 i (with_new t_link i (locked 0 s)))
  unfolding link_to
  link_to-PathResult link_name ok fits plain =
      Ends->>= data_block_alloc (path_steps link_name) (with_new t_link i (locked 0 s))
        (data_block_alloc-Allocs (with_new t_link i (locked 0 s)) u.blocks_free)
        (path_steps-PathResult link_name ok fits plain)
