-- ===== src/LinkFs/State.antt =====
-- fs/state.c. A pointer into a table is the index, and `none` is the null pointer; results 0 and -1
-- are `true` and `false`. The delays are left out.
use so_project.Base.{
  ℕ, Bool, true, false, Option, none, some, ltb, if◌then◌else◌, update, first_index,
}
use so_project.Base.Monad.{pure, ◌>>=◌, ◌>>◌, reads, modify, abort, branch, on_index}
use so_project.Tfs.Types.{DirEntry, free, taken, Block, bytes, entries, is_free, cleared_entries}
use so_project.LinkFs.Types.{
  InodeType, t_file, t_directory, t_link, Inode, Volume, V, lock, unlock, set_table_lock,
  set_blocks_lock,
}

abbrev pub valid_inumber : ℕ → Volume → Bool
valid_inumber i s = ltb i s.fs_params.max_inode_count

abbrev pub valid_block_number : Option ℕ → Volume → Bool
valid_block_number none s = false
valid_block_number (some b) s = ltb b s.fs_params.max_block_count

abbrev pub valid_file_handle : Option ℕ → Volume → Bool
valid_file_handle none s = false
valid_file_handle (some h) s = ltb h s.fs_params.max_open_files_count

abbrev pub state_block_size : Volume → ℕ
state_block_size s = s.fs_params.block_size

unfoldable pub set_inode : ℕ → Inode → V (Unit {0})
set_inode i n = modify (λ s. record s { inode_table = update s.inode_table i n })

unfoldable pub inode_alloc : V (Option ℕ)
inode_alloc = do
  lock (λ s. s.inode_table_rwl) set_table_lock
  found ← reads (λ s. first_index (λ i. is_free (s.freeinode_ts i)) s.fs_params.max_inode_count 0)
  on_index found (do unlock set_table_lock; pure none)
      (λ inumber. do
        modify (λ s. record s { freeinode_ts = update s.freeinode_ts inumber taken })
        unlock set_table_lock
        pure (some inumber))

unfoldable pub data_block_alloc : V (Option ℕ)
data_block_alloc = do
  lock (λ s. s.free_blocks_rwl) set_blocks_lock
  found ← reads (λ s. first_index (λ i. is_free (s.free_blocks i)) s.fs_params.max_block_count 0)
  on_index found (do unlock set_blocks_lock; pure none)
      (λ i. do
        modify (λ s. record s { free_blocks = update s.free_blocks i taken })
        unlock set_blocks_lock
        pure (some i))

unfoldable pub free_block : ℕ → V Bool
free_block b = do
  lock (λ s. s.free_blocks_rwl) set_blocks_lock
  modify (λ s. record s { free_blocks = update s.free_blocks b free })
  unlock set_blocks_lock
  pure true

unfoldable pub data_block_free : Option ℕ → V Bool
data_block_free b = do
  valid ← reads (valid_block_number b)
  branch valid (on_index b (pure false) free_block) (pure false)

unfoldable pub data_block_get : Option ℕ → V (Option ℕ)
data_block_get b = do valid ← reads (valid_block_number b); pure (if valid then b else none)

-- The inode table is locked: free the block, if there is one, and the inode.
unfoldable pub delete_taken : ℕ → V Bool
delete_taken inumber = do
  inode ← reads (λ s. s.inode_table inumber)
  branch (ltb 0 inode.i_size) (do data_block_free inode.i_data_block; pure tt) (pure tt)
  modify (λ s. record s { freeinode_ts = update s.freeinode_ts inumber free })
  unlock set_table_lock
  pure true

unfoldable pub inode_delete : ℕ → V Bool
inode_delete inumber = do
  valid ← reads (valid_inumber inumber)
  branch valid
      (do
        lock (λ s. s.inode_table_rwl) set_table_lock
        state ← reads (λ s. s.freeinode_ts inumber)
        branch (is_free state) (do unlock set_table_lock; pure false) (delete_taken inumber))
      (pure false)

-- The fields that all types share, with a fresh lock.
abbrev pub begin_inode : InodeType → ℕ → Volume → Volume
begin_inode i_type inumber s = record s {
  inode_table =
      update s.inode_table inumber
        (record (s.inode_table inumber) { i_node_type = i_type; i_links_count = 1 });
  inode_rwl = update s.inode_rwl inumber false;
}

abbrev pub with_data : ℕ → Option ℕ → Inode → Inode
with_data size block n = record n { i_size = size; i_data_block = block }

unfoldable pub create_directory : ℕ → V (Option ℕ)
create_directory inumber = do
  b ← data_block_alloc
  node ← reads (λ s. s.inode_table inumber)
  on_index b (do set_inode inumber (with_data 0 none node); inode_delete inumber; pure none)
      (λ b. do
        size ← reads state_block_size
        set_inode inumber (with_data size (some b) node)
        block ← data_block_get (some b)
        on_index block (pure none) (λ block. do
          modify (λ s. record s {
            fs_data = update s.fs_data block (entries (cleared_entries (s.fs_data block)));
          })
          pure (some inumber)))

unfoldable pub create_plain : ℕ → V (Option ℕ)
create_plain inumber = do
  node ← reads (λ s. s.inode_table inumber)
  set_inode inumber (with_data 0 none node)
  pure (some inumber)

abbrev pub create_typed : InodeType → ℕ → V (Option ℕ)
create_typed t_directory = create_directory
create_typed t_file = create_plain
create_typed t_link = create_plain

unfoldable pub inode_create : InodeType → V (Option ℕ)
inode_create i_type = do
  inumber ← inode_alloc
  on_index inumber (pure none)
      (λ inumber. do modify (begin_inode i_type inumber); create_typed i_type inumber)

unfoldable pub inode_get : ℕ → V (Option ℕ)
inode_get inumber = do
  valid ← reads (valid_inumber inumber)
  pure (if valid then some inumber else none)

-- The lock is named by the inode that it belongs to.
unfoldable pub inode_rwl_get : ℕ → V (Option ℕ)
inode_rwl_get inumber = do
  valid ← reads (valid_inumber inumber)
  pure (if valid then some inumber else none)

-- Bytes read as entries are outside the model.
unfoldable pub dir_entries : Block → V (ℕ → DirEntry)
dir_entries (entries e) = pure e
dir_entries (bytes b) = abort

abbrev pub is_directory : InodeType → Bool
is_directory t_directory = true
is_directory t_file = false
is_directory t_link = false
