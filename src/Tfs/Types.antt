-- ===== src/Tfs/Types.antt =====
-- fs2/state.h, fs2/config.h, and the static variables of fs2/state.c and fs2/operations.c.
use so_project.Base.Monad.{StateM}
use so_project.Base.{ℕ, ◌+◌, ◌*◌, ◌/◌, Bool, Option, none, Name, c_string}

abbrev pub root_dir_inum : ℕ
root_dir_inum = 0

abbrev pub max_file_name : ℕ
max_file_name = 40

-- `sizeof(dir_entry_t)`: forty characters and an `int`
abbrev pub sizeof_dir_entry : ℕ
sizeof_dir_entry = 44

-- The name is kept up to its terminator; `none` is the `d_inumber` -1 of a free entry.
pub record DirEntry : Type 0 where
  pub d_name : Name
  pub d_inumber : Option ℕ

pub data InodeType : Type 0 where
  t_file t_directory : InodeType

pub record Inode : Type 0 where
  pub i_node_type : InodeType
  pub i_size : ℕ
  pub i_data_block : Option ℕ

pub data AllocationState : Type 0 where
  free taken : AllocationState

pub record OpenFileEntry : Type 0 where
  pub of_inumber : ℕ
  pub of_offset : ℕ

pub record TfsParams : Type 0 where
  pub max_inode_count : ℕ
  pub max_block_count : ℕ
  pub max_open_files_count : ℕ
  pub block_size : ℕ

-- What a data block holds: plain bytes, or the entries of a directory.
pub data Block : Type 0 where
  bytes : (ℕ → ℕ) → Block
  entries : (ℕ → DirEntry) → Block

-- The static variables. Arrays are functions of the index; the code tests bounds.
pub record Fs : Type 0 where
  pub fs_params : TfsParams
  pub inode_table : ℕ → Inode
  pub freeinode_ts : ℕ → AllocationState
  pub fs_data : ℕ → Block
  pub free_blocks : ℕ → AllocationState
  pub open_file_table : ℕ → OpenFileEntry
  pub free_open_file_entries : ℕ → AllocationState
  pub g_library_mutex : Bool

abbrev pub is_free : AllocationState → Bool
is_free free = Bool.true
is_free taken = Bool.false

abbrev pub max_dir_entries : Fs → ℕ
max_dir_entries s = s.fs_params.block_size / sizeof_dir_entry

-- The cast of a block to `dir_entry_t *` by `inode_create`, which resets every `d_inumber`: the
-- names are what the bytes happen to spell.
unfoldable pub cleared_entries : Block → ℕ → DirEntry
cleared_entries (bytes b) i = record {
  d_name = c_string max_file_name (λ k. b (sizeof_dir_entry * i + k));
  d_inumber = none;
}
cleared_entries (entries e) i = record { d_name = (e i).d_name; d_inumber = none }

-- A function over the static variables.
abbrev pub M : Type 0 → Type 0
M A = StateM Fs A
