-- ===== src/LinkFs/CreateLaws.antt =====
-- `tfs_open` of fs/operations.c with O_CREAT, on a path that names nothing: the file, its handle,
-- and the invariant.
use so_project.Base.{
  ℕ, ◌≤◌, ◌<◌, ◌≡◌, refl, ap, ◌∙◌, fun_ext, ◌≢◌, ◌⊎◌, inl, inr, Bool, true, false, Option, none,
  update, update_self, Name, length, arith,
}
use so_project.Base.Monad.{
  ◌>>=◌, ◌>>◌, branch, on_index, Ends, Ends-then, Ends->>=, Ends-mono, Ends-done,
}
use so_project.Tfs.Types.{max_file_name, DirEntry, free, taken, entries}
use so_project.Tfs.Operations.{valid_pathname, base_name}
use so_project.Tfs.Directory.{find_name}
use so_project.Tfs.DirUpdate.{used, Names-add}
use so_project.Tfs.Steps.{base-length}
use so_project.LinkFs.Types.{t_file, Volume, V, max_dir_entries, set_inode_lock}
use so_project.LinkFs.State.{inode_create, inode_delete}
use so_project.LinkFs.Tables.{add_dir_entry, add_to_open_file_table}
use so_project.LinkFs.Operations.{unlock_inode, unlock_return, open_new}
use so_project.LinkFs.Refs.{refs, refs-used, refs_none}
use so_project.LinkFs.Valid.{Root, Inv, Unlocked}
use so_project.LinkFs.Calls.{
  locked, unlock-locked, unlock_inode-eq, unlock_return-eq, with_entries, Adds, misfit, crowded,
  adds, add_dir_entry-Adds,
}
use so_project.LinkFs.Update.{inode_delete-eq, without_block, delete_inode}
use so_project.LinkFs.Open.{Opens, add_to_open_file_table-Opens}
use so_project.LinkFs.Create.{fresh_file, with_inode, Makes, all_taken, makes, inode_create-Makes}

-- The volume after the file `i` is made, and named by the entry `j`.
abbrev pub created : ℕ → (ℕ → DirEntry) → ℕ → Name → ℕ → Volume → Volume
created b e j name i s = record s {
  inode_table = update s.inode_table i fresh_file;
  freeinode_ts = update s.freeinode_ts i taken;
  fs_data = update s.fs_data b (entries (update e j (used name i)));
}

-- The volume after the file `i` is made and deleted: what is left is in a free inode.
abbrev scrapped : ℕ → Volume → Volume
scrapped i s = record s { inode_table = update s.inode_table i fresh_file }

-- What `tfs_open` does with O_CREAT, on a name that is not in the root directory `e` in block `b`.
pub data Creates (b : ℕ) (e : ℕ → DirEntry) (name : Name) (s : Volume) (r : Option ℕ) (s' : Volume)
    : Type 0 where
  no_inode :
      ((i : ℕ) → i < s.fs_params.max_inode_count → s.freeinode_ts i ≡ taken)
      → r ≡ none
      → s' ≡ s
      → Creates b e name s r s'
  no_entry :
      (i : ℕ)
      → s.freeinode_ts i ≡ free
      → (max_file_name ≤ length name) ⊎ ((k : ℕ) → k < max_dir_entries s → (e k).d_inumber ≢ none)
      → r ≡ none
      → s' ≡ scrapped i s
      → Creates b e name s r s'
  creates :
      (i j : ℕ)
      → i < s.fs_params.max_inode_count
      → s.freeinode_ts i ≡ free
      → j < max_dir_entries s
      → (e j).d_inumber ≡ none
      → length name < max_file_name
      → Opens i 0 (created b e j name i s) r s'
      → Creates b e name s r s'

-- The end of `open_new`, with the inode `i`.
abbrev finish_new : ℕ → Bool → V (Option ℕ)
finish_new i added =
    branch added (do unlock_inode 0; add_to_open_file_table i 0)
      (do inode_delete i; unlock_return 0 none)

abbrev name_new : Option Name → Option ℕ → V (Option ℕ)
name_new name inum =
    on_index inum (unlock_return 0 none)
      (λ inum. do added ← add_dir_entry 0 (base_name name) inum; finish_new inum added)

module _ {b : ℕ} {e : ℕ → DirEntry} {s : Volume} (v : Inv b e s) (u : Unlocked s) where
  pub free_nonroot : (i : ℕ) → s.freeinode_ts i ≡ free → i ≢ 0
  free_nonroot i q z = ground (arith, v.root.root_taken)

  Root-with_inode : (i : ℕ) → s.freeinode_ts i ≡ free → Root b e (with_inode i (locked 0 s))
  Root-with_inode i q =
      let nz = free_nonroot i q in
      record {
        root_in = v.root.root_in;
        root_taken = ground (arith, v.root.root_taken);
        root_type = ground (arith, v.root.root_type);
        root_block = ground (arith, v.root.root_block);
        block_in = v.root.block_in;
        block_taken = v.root.block_taken;
        block_entries = v.root.block_entries;
        few = v.root.few;
      }

  pub locks_free :
      (i : ℕ) → update (update (update s.inode_rwl 0 true) i false) 0 false ≡ s.inode_rwl
  locks_free i = fun_ext λ k. ground (arith, u.inodes_free k)

  deleted :
      (i : ℕ)
      → s.freeinode_ts i ≡ free
      → set_inode_lock 0 false (delete_inode i (with_inode i (locked 0 s))) ≡ scrapped i s
  deleted i q =
      let states : update (update s.freeinode_ts i taken) i free ≡ s.freeinode_ts =
        fun_ext λ k. ground arith in
      let kept : without_block (update s.inode_table i fresh_file i) (with_inode i s)
          ≡ s.free_blocks =
        ground arith in
      ap (λ l. record (delete_inode i (with_inode i s)) { inode_rwl = l }) (locks_free i)
      ∙ ap
          (λ f. record (delete_inode i (with_inode i s)) {
            inode_rwl = s.inode_rwl;
            freeinode_ts = f;
          })
          states
      ∙ ap (λ f. record (scrapped i s) { free_blocks = f }) kept

  finish_new-Creates :
      (name : Name) (i : ℕ)
      → i < s.fs_params.max_inode_count
      → s.freeinode_ts i ≡ free
      → 0 < length name
      → (a : Bool) (t : Volume)
      → Adds b (max_dir_entries s) e name i (with_inode i (locked 0 s)) a t
      → Ends (Creates b e name s) (finish_new i a t)
  unfolding branch
  finish_new-Creates name i lt q long a t (misfit qa qt bad) =
      rw (qa, qt)
        (Ends-then _ _ _
          (inode_delete-eq i (with_inode i (locked 0 s)) u.table_free u.blocks_free lt
            (update_self s.freeinode_ts i taken))
          (Ends-done (unlock_return-eq 0 none _) (
            no_entry i q (elim bad [ inl z ↦ absurd (omega arith) | inr l ↦ inl l ]) refl
              (deleted i q))))
  finish_new-Creates name i lt q long a t (crowded qa qt every) =
      rw (qa, qt)
        (Ends-then _ _ _
          (inode_delete-eq i (with_inode i (locked 0 s)) u.table_free u.blocks_free lt
            (update_self s.freeinode_ts i taken))
          (Ends-done (unlock_return-eq 0 none _) (no_entry i q (inr every) refl (deleted i q))))
  finish_new-Creates name i lt q long a t (adds j qa qt ltj fr _ short) =
      let back : set_inode_lock 0 false
            (with_entries b (update e j (used name i)) (with_inode i (locked 0 s)))
          ≡ created b e j name i s =
        ap (λ l. record (created b e j name i s) { inode_rwl = l }) (locks_free i) in
      rw (qa, qt)
        (Ends-then _ _ _ (unlock_inode-eq 0 _) (
          rw back (
            Ends-mono
              (add_to_open_file_table-Opens i 0 (created b e j name i s) u.files_free
                u.entries_free)
              (λ r s' o. creates i j lt q ltj fr short o))))

  name_new-Creates :
      (name : Option Name)
      → valid_pathname name ≡ true
      → (r : Option ℕ) (t : Volume) → Makes t_file (locked 0 s) r t
      → Ends (Creates b e (base_name name) s) (name_new name r t)
  unfolding on_index
  name_new-Creates name ok r t (all_taken every er et) =
      rw (er, et)
        (Ends-done (unlock_return-eq 0 none _)
          (no_inode every refl (unlock-locked 0 s (u.inodes_free 0))))
  name_new-Creates name ok r t (makes i lt q er et) =
      rw (er, et)
        (Ends->>= (add_dir_entry 0 (base_name name) i) (finish_new i) (with_inode i (locked 0 s))
          (add_dir_entry-Adds (Root-with_inode i q) (base_name name) i)
          (finish_new-Creates (base_name name) i lt q (base-length name ok)))

  pub open_new-Creates :
      (name : Option Name)
      → valid_pathname name ≡ true
      → Ends (Creates b e (base_name name) s) (open_new name 0 (locked 0 s))
  unfolding open_new
  open_new-Creates name ok =
      Ends->>= (inode_create t_file) (name_new name) (locked 0 s)
        (inode_create-Makes (locked 0 s) u.table_free t_file (λ i. refl)) (name_new-Creates name ok)

  unnamed : (i : ℕ) → s.freeinode_ts i ≡ free → refs (max_dir_entries s) e i ≡ 0
  unnamed i q =
      refs_none (max_dir_entries s) e i
        (λ k lt h. let (_, _, t) = v.links.listed k i lt h in ground arith)

  pub Inv-created :
      (i j : ℕ) (name : Name)
      → s.freeinode_ts i ≡ free
      → j < max_dir_entries s
      → (e j).d_inumber ≡ none
      → i < s.fs_params.max_inode_count
      → 0 < length name
      → length name < max_file_name
      → find_name e (max_dir_entries s) name ≡ none
      → Inv b (update e j (used name i)) (created b e j name i s)
  Inv-created i j name q ltj fr lti long short new =
      let nz = free_nonroot i q in
      let none_before = unnamed i q in
      record {
        root = record {
          root_in = v.root.root_in;
          root_taken = ground (arith, v.root.root_taken);
          root_type = ground (arith, v.root.root_type);
          root_block = ground (arith, v.root.root_block);
          block_in = v.root.block_in;
          block_taken = v.root.block_taken;
          block_entries = update_self s.fs_data b (entries (update e j (used name i)));
          few = v.root.few;
        };
        names = Names-add v.names j i name ltj fr long short new;
        links = record {
          listed = λ k x lt h. ground (arith, v.links.listed k x);
          counts = λ x nzx ltx tx.
              let count = refs-used (max_dir_entries s) e j i name x ltj fr in
              ground (arith, v.links.counts x nzx ltx);
          no_orphan = λ x nzx ltx tx.
              let count = refs-used (max_dir_entries s) e j i name x ltj fr in
              ground (arith, v.links.no_orphan x nzx ltx);
          apart = λ x nzx ltx tx. ground (arith, v.links.apart x nzx ltx);
        };
      }

  pub Inv-scrapped : (i : ℕ) → s.freeinode_ts i ≡ free → Inv b e (scrapped i s)
  Inv-scrapped i q =
      let nz = free_nonroot i q in
      record {
        root = record {
          root_in = v.root.root_in;
          root_taken = v.root.root_taken;
          root_type = ground (arith, v.root.root_type);
          root_block = ground (arith, v.root.root_block);
          block_in = v.root.block_in;
          block_taken = v.root.block_taken;
          block_entries = v.root.block_entries;
          few = v.root.few;
        };
        names = v.names;
        links = record {
          listed = v.links.listed;
          counts = λ x nzx ltx tx. ground (arith, v.links.counts x nzx ltx tx);
          no_orphan = v.links.no_orphan;
          apart = λ x nzx ltx tx. ground (arith, v.links.apart x nzx ltx tx);
        };
      }
