-- ===== src/LinkFs/Types.antt =====
-- fs/state.h, and the static variables of fs/state.c. The types that fs2/state.h has too are those
-- of Tfs/Types. A lock is whether it is held; a call that takes a held lock blocks, since the calls
-- are run one at a time.
use so_project.Base.Monad.{StateM, ◌>>=◌, reads, modify, abort, branch}
use so_project.Base.{ℕ, ◌/◌, Bool, true, false, Option, update}
use so_project.Tfs.Types.{AllocationState, OpenFileEntry, TfsParams, Block, sizeof_dir_entry}

pub data InodeType : Type 0 where
  t_file t_directory t_link : InodeType

pub record Inode : Type 0 where
  pub i_node_type : InodeType
  pub i_links_count : ℕ
  pub i_size : ℕ
  pub i_data_block : Option ℕ

-- The static variables; the mutex in an open file's entry is in `entry_lock`.
pub record Volume : Type 0 where
  pub fs_params : TfsParams
  pub inode_table : ℕ → Inode
  pub inode_rwl : ℕ → Bool
  pub freeinode_ts : ℕ → AllocationState
  pub inode_table_rwl : Bool
  pub fs_data : ℕ → Block
  pub free_blocks : ℕ → AllocationState
  pub free_blocks_rwl : Bool
  pub open_file_table : ℕ → OpenFileEntry
  pub entry_lock : ℕ → Bool
  pub free_open_file_entries : ℕ → AllocationState
  pub open_file_table_rwl : Bool

abbrev pub V : Type 0 → Type 0
V A = StateM Volume A

abbrev pub max_dir_entries : Volume → ℕ
max_dir_entries s = s.fs_params.block_size / sizeof_dir_entry

-- `rwl_wrlock`, `rwl_rdlock` and `mutex_lock` on the lock that `held` reads and `set` writes.
unfoldable pub lock : (Volume → Bool) → (Bool → Volume → Volume) → V (Unit {0})
lock held set = do taken ← reads held; branch taken abort (modify (set true))

-- `rwl_unlock` and `mutex_unlock`
unfoldable pub unlock : (Bool → Volume → Volume) → V (Unit {0})
unlock set = modify (set false)

abbrev pub set_table_lock : Bool → Volume → Volume
set_table_lock h s = record s { inode_table_rwl = h }

abbrev pub set_blocks_lock : Bool → Volume → Volume
set_blocks_lock h s = record s { free_blocks_rwl = h }

abbrev pub set_files_lock : Bool → Volume → Volume
set_files_lock h s = record s { open_file_table_rwl = h }

abbrev pub set_inode_lock : ℕ → Bool → Volume → Volume
set_inode_lock i h s = record s { inode_rwl = update s.inode_rwl i h }

abbrev pub set_entry_lock : ℕ → Bool → Volume → Volume
set_entry_lock k h s = record s { entry_lock = update s.entry_lock k h }
