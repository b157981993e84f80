-- ===== src/LinkFs/Valid.antt =====
-- The invariant of the root directory and the link counts of fs/state.c. `b` is the root's block and
-- `e` are its entries.
use so_project.Base.{ℕ, ◌<◌, ◌^◌, ◌≡◌, ◌≢◌, false, some}
use so_project.Tfs.Types.{DirEntry, taken, entries}
use so_project.Tfs.Valid.{Names}
use so_project.LinkFs.Types.{t_directory, Volume, max_dir_entries}
use so_project.LinkFs.Refs.{refs}

pub record Root (b : ℕ) (e : ℕ → DirEntry) (s : Volume) : Type 0 where
  pub root_in : 0 < s.fs_params.max_inode_count
  pub root_taken : s.freeinode_ts 0 ≡ taken
  pub root_type : (s.inode_table 0).i_node_type ≡ t_directory
  pub root_block : (s.inode_table 0).i_data_block ≡ some b
  pub block_in : b < s.fs_params.max_block_count
  pub block_taken : s.free_blocks b ≡ taken
  pub block_entries : s.fs_data b ≡ entries e
  pub few : max_dir_entries s < 2 ^ 32

-- The entries name taken inodes, and each taken inode counts the entries that name it.
pub record Links (b : ℕ) (e : ℕ → DirEntry) (s : Volume) : Type 0 where
  pub listed :
      (k i : ℕ)
      → k < max_dir_entries s
      → (e k).d_inumber ≡ some i
      → (i < s.fs_params.max_inode_count) × (i ≢ 0) × (s.freeinode_ts i ≡ taken)
  pub counts :
      (i : ℕ)
      → i ≢ 0
      → i < s.fs_params.max_inode_count
      → s.freeinode_ts i ≡ taken
      → (s.inode_table i).i_links_count ≡ refs (max_dir_entries s) e i
  pub no_orphan :
      (i : ℕ)
      → i ≢ 0
      → i < s.fs_params.max_inode_count
      → s.freeinode_ts i ≡ taken
      → 0 < refs (max_dir_entries s) e i
  pub apart :
      (i : ℕ)
      → i ≢ 0
      → i < s.fs_params.max_inode_count
      → s.freeinode_ts i ≡ taken
      → 0 < (s.inode_table i).i_size
      → (s.inode_table i).i_data_block ≢ some b

pub record Inv (b : ℕ) (e : ℕ → DirEntry) (s : Volume) : Type 0 where
  pub root : Root b e s
  pub names : Names (max_dir_entries s) e
  pub links : Links b e s

-- No lock is held.
pub record Unlocked (s : Volume) : Type 0 where
  pub inodes_free : (i : ℕ) → s.inode_rwl i ≡ false
  pub table_free : s.inode_table_rwl ≡ false
  pub blocks_free : s.free_blocks_rwl ≡ false
  pub files_free : s.open_file_table_rwl ≡ false
  pub entries_free : (k : ℕ) → s.entry_lock k ≡ false

-- Between calls.
pub record IsValid (b : ℕ) (e : ℕ → DirEntry) (s : Volume) : Type 0 where
  pub inv : Inv b e s
  pub unlocked : Unlocked s
