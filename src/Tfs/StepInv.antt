-- ===== src/Tfs/StepInv.antt =====
-- The invariant of the file system across the steps of the calls of fs2/operations.c.
use so_project.Base.{
  ℕ, ◌≤◌, ◌<◌, ◌≡◌, ◌≢◌, inl, inr, Bool, true, false, none, some, update, update_self, update_ind,
  ltb, ltb→lt, Bool-cases, Name, length, arith,
}
use so_project.Tfs.Types.{
  max_file_name, DirEntry, Inode, free, taken, TfsParams, entries, Fs, max_dir_entries,
}
use so_project.Tfs.Valid.{FileOk, Inv}
use so_project.Tfs.Handles.{Handles-set, Handles-inode}
use so_project.Tfs.Directory.{find_name}
use so_project.Tfs.DirUpdate.{used, Directory-add}
use so_project.Tfs.DirCalls.{with_entries}
use so_project.Tfs.Steps.{
  with_file, truncate_block, truncate, truncate_if, empty_file, with_inode, with_free_inode,
  Root-other,
}
use so_project.Tfs.Open.{free-ne-Root}

pub empty_file-FileOk : (b : ℕ) (p : TfsParams) → FileOk b p empty_file
empty_file-FileOk b p = record { size_le = omega arith; block_ok = λ h. absurd (omega arith) }

emptied-FileOk : (b : ℕ) (p : TfsParams) (n : Inode) → FileOk b p (record n { i_size = 0 })
emptied-FileOk b p n = record { size_le = omega arith; block_ok = λ h. absurd (omega arith) }

module _ {b : ℕ} {e : ℕ → DirEntry} {s : Fs} (v : Inv b e s) where
  pub Inv-with_file :
      (h i offset : ℕ)
      → i < s.fs_params.max_inode_count
      → i ≢ 0
      → offset ≤ s.fs_params.block_size
      → FileOk b s.fs_params (s.inode_table i)
      → Inv b e (with_file h i offset s)
  Inv-with_file h i offset lt nz le ok = record {
    root = v.root;
    directory = v.directory;
    storage = v.storage;
    handles = Handles-set v.handles h (record { of_inumber = i; of_offset = offset }) lt nz le ok;
  }

  Inv-truncate_block :
      (i d : ℕ)
      → i ≢ 0
      → s.freeinode_ts i ≡ taken
      → 0 < (s.inode_table i).i_size
      → (s.inode_table i).i_data_block ≡ some d
      → Inv b e (truncate_block i (some d) s)
  Inv-truncate_block i d nz t pos ed = record {
    root = record {
      small = v.root.small;
      root_in = v.root.root_in;
      root_taken = v.root.root_taken;
      root_type = ground (arith, v.root.root_type);
      root_block = ground (arith, v.root.root_block);
      block_in = v.root.block_in;
      block_taken =
          let (c, ec, ltc, ne) = (v.storage.file_ok i nz t).block_ok pos in
          ground (arith, v.root.block_taken);
      block_entries = v.root.block_entries;
    };
    directory = v.directory;
    storage = record {
      file_ok = λ j nzj tj.
          update_ind (FileOk b s.fs_params) s.inode_table i _ j
            (λ _. emptied-FileOk b s.fs_params (s.inode_table i)) (λ _. v.storage.file_ok j nzj tj);
      owned = λ j c nzj tj posj ej. ground (arith, v.storage.owned j c, v.storage.disjoint i j d);
      disjoint = λ j k c nzj nzk tj tk posj posk ej ek. ground (arith, v.storage.disjoint j k c);
      plain = v.storage.plain;
    };
    handles = Handles-inode v.handles i _ (emptied-FileOk b s.fs_params (s.inode_table i));
  }

  Inv-truncate : (i : ℕ) → i ≢ 0 → s.freeinode_ts i ≡ taken → Inv b e (truncate i s)
  Inv-truncate i nz t = elim (Bool-cases (ltb 0 (s.inode_table i).i_size)) [
    | inr empty ↦ rw empty v
    | inl full_file ↦
        let (d, ed, ltd, ne) = (v.storage.file_ok i nz t).block_ok (ltb→lt _ _ full_file) in
        rw (full_file, ed) (Inv-truncate_block i d nz t (ltb→lt _ _ full_file) ed)
  ]

  pub Inv-truncate_if :
      (c : Bool) (i : ℕ) → i ≢ 0 → s.freeinode_ts i ≡ taken → Inv b e (truncate_if c i s)
  Inv-truncate_if true i nz t = Inv-truncate i nz t
  Inv-truncate_if false i nz t = v

  pub Inv-with_free_inode : (i : ℕ) → s.freeinode_ts i ≡ free → Inv b e (with_free_inode i s)
  Inv-with_free_inode i fr =
      let nz : i ≢ 0 = free-ne-Root s v.root fr in
      record {
        root = record {
          small = v.root.small;
          root_in = v.root.root_in;
          root_taken = v.root.root_taken;
          root_type = ground (arith, v.root.root_type);
          root_block = ground (arith, v.root.root_block);
          block_in = v.root.block_in;
          block_taken = v.root.block_taken;
          block_entries = v.root.block_entries;
        };
        directory = v.directory;
        storage = record {
          file_ok = λ j nzj tj.
              update_ind (FileOk b s.fs_params) s.inode_table i empty_file j
                (λ _. empty_file-FileOk b s.fs_params) (λ _. v.storage.file_ok j nzj tj);
          owned = λ j c nzj tj posj ej. ground (arith, v.storage.owned j c);
          disjoint =
              λ j k c nzj nzk tj tk posj posk ej ek. ground (arith, v.storage.disjoint j k c);
          plain = v.storage.plain;
        };
        handles = Handles-inode v.handles i empty_file (empty_file-FileOk b s.fs_params);
      }

  module _ (i j : ℕ) (name : Name) (new : find_name e (max_dir_entries s) name ≡ none)
      (lt : i < s.fs_params.max_inode_count) (fr : s.freeinode_ts i ≡ free)
      (ltj : j < max_dir_entries s) (frj : (e j).d_inumber ≡ none) (long : 0 < length name)
      (short : length name < max_file_name) where
    pub Inv-insert :
        Inv b
          (update e j (used name i))
          (with_entries b (update e j (used name i)) (with_inode i s))
    Inv-insert =
        let nz : i ≢ 0 = free-ne-Root s v.root fr in
        let r = Root-other s i empty_file taken v.root nz in
        record {
          root = record {
            small = r.small;
            root_in = r.root_in;
            root_taken = r.root_taken;
            root_type = r.root_type;
            root_block = r.root_block;
            block_in = r.block_in;
            block_taken = r.block_taken;
            block_entries = update_self s.fs_data b (entries (update e j (used name i)));
          };
          directory = Directory-add v.directory j i name ltj frj lt nz fr long short new;
          storage = record {
            file_ok = λ k nzk tk.
                update_ind (FileOk b s.fs_params) s.inode_table i empty_file k
                  (λ _. empty_file-FileOk b s.fs_params)
                  (λ ne. v.storage.file_ok k nzk (ground arith));
            owned = λ k c nzk tk posk ek. ground (arith, v.storage.owned k c);
            disjoint =
                λ k l c nzk nzl tk tl posk posl ek el. ground (arith, v.storage.disjoint k l c);
            plain = λ d ne. let (c, q) = v.storage.plain d ne in (c, ground arith);
          };
          handles = Handles-inode v.handles i empty_file (empty_file-FileOk b s.fs_params);
        }
