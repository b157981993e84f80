-- ===== src/Tfs/Valid.antt =====
-- The invariant of the file system: the root directory, the files and their blocks, the open
-- files. `b` is the root directory's block and `e` are the entries in it.
use so_project.Base.{ℕ, ◌^◌, ◌≤◌, ◌<◌, ◌≡◌, ◌≢◌, Bool, false, none, some, [], length}
use so_project.Tfs.Types.{
  max_file_name, DirEntry, t_directory, Inode, AllocationState, taken, OpenFileEntry, TfsParams,
  Block, bytes, entries, Fs, max_dir_entries,
}

-- A regular file's inode: its size, and a block of bytes that is not the root's, if it has any.
pub record FileOk (b : ℕ) (p : TfsParams) (n : Inode) : Type 0 where
  pub size_le : n.i_size ≤ p.block_size
  pub block_ok :
      0 < n.i_size → (d : ℕ) × (n.i_data_block ≡ some d) × (d < p.max_block_count) × (d ≢ b)

pub record Root (b : ℕ) (e : ℕ → DirEntry) (p : TfsParams) (inodes : ℕ → Inode)
    (states : ℕ → AllocationState) (blocks : ℕ → Block) (block_states : ℕ → AllocationState)
    : Type 0 where
  pub small : p.block_size < 2 ^ 63
  pub root_in : 0 < p.max_inode_count
  pub root_taken : states 0 ≡ taken
  pub root_type : (inodes 0).i_node_type ≡ t_directory
  pub root_block : (inodes 0).i_data_block ≡ some b
  pub block_in : b < p.max_block_count
  pub block_taken : block_states b ≡ taken
  pub block_entries : blocks b ≡ entries e

-- The entries in use have distinct names that fit, and the others have none.
pub record Names (n : ℕ) (e : ℕ → DirEntry) : Type 0 where
  pub named :
      (k i : ℕ)
      → k < n
      → (e k).d_inumber ≡ some i
      → (0 < length (e k).d_name) × (length (e k).d_name < max_file_name)
  pub blank : (k : ℕ) → k < n → (e k).d_inumber ≡ none → (e k).d_name ≡ []
  pub same_name :
      (k l i j : ℕ)
      → k < n
      → l < n
      → (e k).d_inumber ≡ some i
      → (e l).d_inumber ≡ some j
      → (e k).d_name ≡ (e l).d_name
      → k ≡ l

-- The entries in use name distinct taken inodes by distinct names, and every inode is named.
pub record Directory (n inodes : ℕ) (states : ℕ → AllocationState) (e : ℕ → DirEntry) : Type 0 where
  pub names : Names n e
  pub listed :
      (k i : ℕ) → k < n → (e k).d_inumber ≡ some i → (i < inodes) × (i ≢ 0) × (states i ≡ taken)
  pub same_inode :
      (k l i : ℕ) → k < n → l < n → (e k).d_inumber ≡ some i → (e l).d_inumber ≡ some i → k ≡ l
  pub no_orphan :
      (i : ℕ)
      → i < inodes
      → i ≢ 0
      → states i ≡ taken
      → (k : ℕ) × (k < n) × ((e k).d_inumber ≡ some i)

-- No two files share a block, and a file's block is taken.
pub record Storage (b : ℕ) (p : TfsParams) (inodes : ℕ → Inode) (states : ℕ → AllocationState)
    (blocks : ℕ → Block) (block_states : ℕ → AllocationState) : Type 0 where
  pub file_ok : (i : ℕ) → i ≢ 0 → states i ≡ taken → FileOk b p (inodes i)
  pub owned :
      (i d : ℕ)
      → i ≢ 0
      → states i ≡ taken
      → 0 < (inodes i).i_size
      → (inodes i).i_data_block ≡ some d
      → block_states d ≡ taken
  pub disjoint :
      (i j d : ℕ)
      → i ≢ 0
      → j ≢ 0
      → states i ≡ taken
      → states j ≡ taken
      → 0 < (inodes i).i_size
      → 0 < (inodes j).i_size
      → (inodes i).i_data_block ≡ some d
      → (inodes j).i_data_block ≡ some d
      → i ≡ j
  pub plain : (d : ℕ) → d ≢ b → (c : ℕ → ℕ) × (blocks d ≡ bytes c)

-- An open file is a file, open or already unlinked, and its offset is in its block.
pub record Handles (b : ℕ) (p : TfsParams) (inodes : ℕ → Inode) (files : ℕ → OpenFileEntry)
    (states : ℕ → AllocationState) : Type 0 where
  pub inode_in : (h : ℕ) → states h ≡ taken → (files h).of_inumber < p.max_inode_count
  pub not_root : (h : ℕ) → states h ≡ taken → (files h).of_inumber ≢ 0
  pub offset_le : (h : ℕ) → states h ≡ taken → (files h).of_offset ≤ p.block_size
  pub opened_ok : (h : ℕ) → states h ≡ taken → FileOk b p (inodes (files h).of_inumber)

-- What holds whether or not a call is under way.
pub record Inv (b : ℕ) (e : ℕ → DirEntry) (s : Fs) : Type 0 where
  pub root : Root b e s.fs_params s.inode_table s.freeinode_ts s.fs_data s.free_blocks
  pub directory : Directory (max_dir_entries s) s.fs_params.max_inode_count s.freeinode_ts e
  pub storage : Storage b s.fs_params s.inode_table s.freeinode_ts s.fs_data s.free_blocks
  pub handles : Handles b s.fs_params s.inode_table s.open_file_table s.free_open_file_entries

-- Between calls the mutex is free.
pub record IsValid (b : ℕ) (e : ℕ → DirEntry) (s : Fs) : Type 0 where
  pub inv : Inv b e s
  pub unlocked : s.g_library_mutex ≡ false

pub Inv-mutex :
    {b : ℕ} {e : ℕ → DirEntry} {s : Fs} (m : Bool)
    → Inv b e s
    → Inv b e (record s { g_library_mutex = m })
Inv-mutex m v = record {
  root = v.root;
  directory = v.directory;
  storage = v.storage;
  handles = v.handles;
}
