-- ===== src/Tfs/Init.antt =====
-- `tfs_init` of fs2/operations.c: the first state.
use so_project.Base.{
  ℕ, zero, suc, ◌^◌, ◌≤◌, ◌<◌, ◌≡◌, refl, ◌∙◌, inl, inr, true, false, none, some, Name, [], update,
  ltb, c_string, arith,
}
use so_project.Tfs.Types.{
  max_file_name, DirEntry, Inode, t_directory, AllocationState, free, taken, OpenFileEntry,
  TfsParams, bytes, entries, Fs, max_dir_entries, cleared_entries,
}
use so_project.Base.Monad.{
  pure, reads, modify, on_index, Ends, ends, Ends->>=, Ends-step, Ends-then, Ends-eq,
}
use so_project.Tfs.State.{
  Malloc, sizes_fit, uninitialized, initialized, free_all, tables, state_init, inode_create,
  create_directory, set_inode,
}
use so_project.Tfs.Alloc.{full, took, inode_alloc-Takes, data_block_alloc-Takes}
use so_project.Tfs.Operations.{make_root, tfs_init}
use so_project.Tfs.Valid.{Inv, IsValid}
use so_project.Tfs.DirCalls.{data_block_get-eq}
use so_project.Tfs.Directory.{find_name, find_name-cases}

pub c_string-zeros : (n : ℕ) (m : ℕ → ℕ) → ((k : ℕ) → m k ≡ 0) → c_string n m ≡ []
unfolding c_string
c_string-zeros zero m h = refl
c_string-zeros (suc n) m h = rw (h 0) refl

-- Inode 0 and block 0 are the root directory's.
abbrev pub rooted : Fs → Fs
rooted s = record s {
  freeinode_ts = update s.freeinode_ts 0 taken;
  free_blocks = update s.free_blocks 0 taken;
  inode_table = update s.inode_table 0 (record {
    i_node_type = t_directory;
    i_size = s.fs_params.block_size;
    i_data_block = some 0;
  });
  fs_data = update s.fs_data 0 (entries (cleared_entries (s.fs_data 0)));
}

abbrev take_inode : Fs → Fs
take_inode s = record s { freeinode_ts = update s.freeinode_ts 0 taken }

create_directory-eq :
    (s : Fs)
    → 0 < s.fs_params.max_block_count
    → s.free_blocks 0 ≡ free
    → Ends (λ r s'. (r ≡ some 0) × (s' ≡ rooted s)) (create_directory 0 (take_inode s))
unfolding create_directory on_index reads set_inode modify pure
create_directory-eq s lt fr =
    Ends->>= _ _ (take_inode s) (data_block_alloc-Takes (take_inode s)) λ r s' tk. elim tk [
      | full er es all ↦ absurd (ground (arith, all 0 lt))
      | took i er es lti fri m ↦
          let first : i ≡ 0 = ground (arith, m 0) in
          rw (er, es, first)
            (Ends-step _ _ _ refl (
              Ends-then _ _ _ refl (
                Ends-step _ _ _ (data_block_get-eq 0 _ lt)
                  (Ends-then _ _ _ refl (ends (some 0) (rooted s) (refl, refl))))))
    ]

inode_create-rooted :
    (s : Fs)
    → 0 < s.fs_params.max_inode_count
    → s.freeinode_ts 0 ≡ free
    → 0 < s.fs_params.max_block_count
    → s.free_blocks 0 ≡ free
    → Ends (λ r s'. (r ≡ some 0) × (s' ≡ rooted s)) (inode_create t_directory s)
unfolding inode_create on_index
inode_create-rooted s lti fri ltb frb = Ends->>= _ _ s (inode_alloc-Takes s) λ r s' tk. elim tk [
  | full er es all ↦ absurd (ground (arith, all 0 lti))
  | took i er es lt fr m ↦
      let first : i ≡ 0 = ground (arith, m 0) in rw (er, es, first) (create_directory-eq s ltb frb)
]

make_root-eq :
    (s t : Fs)
    → inode_create t_directory s ≡ some (some 0, t)
    → make_root (initialized s) ≡ some (true, initialized t)
unfolding make_root
make_root-eq s t run = rw (run, make_root) refl

-- The state built from the tables.
abbrev pub fresh :
    TfsParams
    → (ℕ → Inode)
    → (ℕ → AllocationState)
    → (ℕ → ℕ → ℕ)
    → (ℕ → AllocationState)
    → (ℕ → OpenFileEntry)
    → (ℕ → AllocationState)
    → Fs
fresh p inodes fi blocks fb files fo = record {
  fs_params = p;
  inode_table = inodes;
  freeinode_ts = free_all p.max_inode_count fi;
  fs_data = λ k. bytes (blocks k);
  free_blocks = free_all p.max_block_count fb;
  open_file_table = files;
  free_open_file_entries = free_all p.max_open_files_count fo;
  g_library_mutex = false;
}

-- The root directory's entries in the first block.
abbrev pub first_entries : (ℕ → ℕ → ℕ) → ℕ → DirEntry
first_entries blocks = cleared_entries (bytes (blocks 0))

-- The tables as `malloc` gives them: beyond the end of a table there is no element to be taken.
module _ (p : TfsParams) (inodes : ℕ → Inode) (fi : ℕ → AllocationState) (blocks : ℕ → ℕ → ℕ)
    (fb : ℕ → AllocationState) (files : ℕ → OpenFileEntry) (fo : ℕ → AllocationState)
    (small : p.block_size < 2 ^ 63) (sizes : sizes_fit p ≡ true)
    (some_inode : 0 < p.max_inode_count) (some_block : 0 < p.max_block_count)
    (zeros : (k : ℕ) → blocks 0 k ≡ 0) (no_inode : (i : ℕ) → p.max_inode_count ≤ i → fi i ≡ free)
    (no_file : (h : ℕ) → p.max_open_files_count ≤ h → fo h ≡ free) where
  abbrev start : Fs
  start = fresh p inodes fi blocks fb files fo

  abbrev root_entries : ℕ → DirEntry
  root_entries = first_entries blocks

  all_inodes_free : (i : ℕ) → free_all p.max_inode_count fi i ≡ free
  unfolding free_all
  all_inodes_free i = ground (arith, no_inode i)

  all_files_free : (h : ℕ) → free_all p.max_open_files_count fo h ≡ free
  unfolding free_all
  all_files_free h = ground (arith, no_file h)

  pub rooted-Inv : Inv 0 root_entries (rooted start)
  unfolding cleared_entries
  rooted-Inv = record {
    root = record {
      small = small;
      root_in = some_inode;
      root_taken = refl;
      root_type = refl;
      root_block = refl;
      block_in = some_block;
      block_taken = refl;
      block_entries = refl;
    };
    directory = record {
      listed = λ k i lt q. cc;
      names = record {
        named = λ k i lt q. cc;
        blank = λ k lt q. c_string-zeros max_file_name _ (λ j. zeros _);
        same_name = λ k l i j ltk ltl qk ql same. cc;
      };
      same_inode = λ k l i ltk ltl qk ql. cc;
      no_orphan = λ i lt ne tk. absurd (ground (arith, all_inodes_free i));
    };
    storage = record {
      file_ok = λ i ne tk. absurd (ground (arith, all_inodes_free i));
      owned = λ i d ne tk pos q. absurd (ground (arith, all_inodes_free i));
      disjoint = λ i j d nei nej ti tj posi posj qi qj. absurd (ground (arith, all_inodes_free i));
      plain = λ d ne. (blocks d, ground arith);
    };
    handles = record {
      inode_in = λ h t. absurd (ground (arith, all_files_free h));
      not_root = λ h t. absurd (ground (arith, all_files_free h));
      offset_le = λ h t. absurd (ground (arith, all_files_free h));
      opened_ok = λ h t. absurd (ground (arith, all_files_free h));
    };
  }

  abbrev given : Malloc
  given = record {
    inodes = some inodes;
    inode_states = some fi;
    blocks = some blocks;
    block_states = some fb;
    open_files = some files;
    open_states = some fo;
  }

  pub no_names :
      (name : Name) (n : ℕ) → n ≡ max_dir_entries start → find_name root_entries n name ≡ none
  unfolding cleared_entries
  no_names name n en = rw en (elim (find_name-cases rooted-Inv.directory.names name) [
    | inl (q, none_such) ↦ q
    | inr (i, q, (k, h)) ↦ let q' = h.1 in cc
  ])

  state_init-start : state_init p given uninitialized ≡ (true, initialized start)
  unfolding state_init tables
  state_init-start = rw sizes refl

  block_0_free : free_all p.max_block_count fb 0 ≡ free
  unfolding free_all
  block_0_free = ground arith

  pub tfs_init-IsValid :
      (s : Fs) × (tfs_init (some p) given uninitialized ≡ some (true, initialized s))
      × IsValid 0 root_entries s
      × (s.fs_params ≡ p)
      × ((name : Name) → find_name root_entries (max_dir_entries s) name ≡ none)
      × ((h : ℕ) → s.free_open_file_entries h ≡ free)
  unfolding tfs_init
  tfs_init-IsValid =
      let (r, s, run, (er, es)) =
        Ends-eq
          (inode_create-rooted start some_inode (all_inodes_free 0) some_block block_0_free) in
      (
        rooted start,
        rw state_init-start (make_root-eq start (rooted start) (run ∙ (rw (er, es) refl))),
        record { inv = rooted-Inv; unlocked = refl },
        refl,
        λ name. no_names name _ refl,
        all_files_free,
      )
