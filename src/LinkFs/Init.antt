-- ===== src/LinkFs/Init.antt =====
-- `tfs_init` of fs/operations.c: the first volume.
use so_project.Base.{ℕ, ◌/◌, ◌^◌, ◌≤◌, ◌<◌, ◌≡◌, Bool, true, false, some, update}
use so_project.Tfs.Types.{
  DirEntry, AllocationState, taken, OpenFileEntry, TfsParams, sizeof_dir_entry, bytes, entries,
  cleared_entries,
}
use so_project.Tfs.State.{free_all}
use so_project.LinkFs.Types.{t_directory, Inode, Volume}
use so_project.LinkFs.State.{begin_inode}
use so_project.LinkFs.Tables.{Malloc, init_locks, sizes_fit}

-- Inode 0 and block 0 are the root directory's.
abbrev pub rooted : Volume → Volume
rooted s = record s {
  freeinode_ts = update s.freeinode_ts 0 taken;
  free_blocks = update s.free_blocks 0 taken;
  inode_rwl = update s.inode_rwl 0 false;
  inode_table = update s.inode_table 0 (record {
    i_node_type = t_directory;
    i_links_count = 1;
    i_size = s.fs_params.block_size;
    i_data_block = some 0;
  });
  fs_data = update s.fs_data 0 (entries (cleared_entries (s.fs_data 0)));
}

-- What the directory is made from, once the inode 0 is taken.
abbrev begun : Volume → Volume
begun s = begin_inode t_directory 0 (record s { freeinode_ts = update s.freeinode_ts 0 taken })

-- What the six tables and the two tables of locks are, as `malloc` gives them; beyond the end of a
-- table of locks there is no lock to be held.
module _ (p : TfsParams) (inodes : ℕ → Inode) (locks : ℕ → Bool) (fi : ℕ → AllocationState)
    (blocks : ℕ → ℕ → ℕ) (fb : ℕ → AllocationState) (files : ℕ → OpenFileEntry)
    (file_locks : ℕ → Bool) (fo : ℕ → AllocationState) (sizes : sizes_fit p ≡ true)
    (few : p.block_size / sizeof_dir_entry < 2 ^ 32) (some_inode : 0 < p.max_inode_count)
    (some_block : 0 < p.max_block_count) (zeros : (k : ℕ) → blocks 0 k ≡ 0)
    (no_lock : (i : ℕ) → p.max_inode_count ≤ i → locks i ≡ false)
    (no_file_lock : (h : ℕ) → p.max_open_files_count ≤ h → file_locks h ≡ false) where
  abbrev given : Malloc
  given = record {
    inodes = some inodes;
    inode_locks = some locks;
    inode_states = some fi;
    blocks = some blocks;
    block_states = some fb;
    open_files = some files;
    entry_locks = file_locks;
    open_states = some fo;
  }

  abbrev first_volume : Volume
  first_volume = record {
    fs_params = p;
    inode_table = inodes;
    inode_rwl = init_locks p.max_inode_count locks;
    freeinode_ts = free_all p.max_inode_count fi;
    inode_table_rwl = false;
    fs_data = λ k. bytes (blocks k);
    free_blocks = free_all p.max_block_count fb;
    free_blocks_rwl = false;
    open_file_table = files;
    entry_lock = init_locks p.max_open_files_count file_locks;
    free_open_file_entries = free_all p.max_open_files_count fo;
    open_file_table_rwl = false;
  }

  abbrev no_entries : ℕ → DirEntry
  no_entries = cleared_entries (bytes (blocks 0))
