-- ===== src/Tfs/Operations.antt =====
-- fs2/operations.c: the calls of the library. Each takes the global mutex and lets it go.
use Prim.Native.Nat.{bit_and}
use so_project.Base.{
  ℕ, zero, suc, ◌+◌, ◌-◌, Bool, true, false, not, ◌&&◌, Option, none, some, List, [], ◌∷◌, ltb, leb,
  ◌==◌, if◌then◌else◌, add_size, sub_size, update, Name, length,
}
use so_project.Tfs.Types.{root_dir_inum, t_file, t_directory, TfsParams, Block, bytes, entries}
use so_project.Tfs.Types.{M}
use so_project.Base.Monad.{pure, ◌>>=◌, ◌>>◌, reads, modify, abort, branch, on_index}
use so_project.Tfs.State.{
  Malloc, Memory, overrun, initialized, state_init, state_destroy, state_block_size, inode_create,
  inode_delete, inode_get, find_in_dir, clear_dir_entry, add_dir_entry, data_block_alloc,
  data_block_free, data_block_get, add_to_open_file_table, remove_from_open_file_table,
  get_open_file_entry, set_inode,
}

abbrev pub tfs_o_creat : ℕ
tfs_o_creat = 1

abbrev pub tfs_o_trunc : ℕ
tfs_o_trunc = 2

abbrev pub tfs_o_append : ℕ
tfs_o_append = 4

-- `mode & flag`
abbrev pub has_flag : ℕ → ℕ → Bool
has_flag mode flag = not (bit_and mode flag == 0)

abbrev pub tfs_default_params : TfsParams
tfs_default_params = record {
  max_inode_count = 64;
  max_block_count = 1024;
  max_open_files_count = 16;
  block_size = 1024;
}

abbrev params_or_default : Option TfsParams → TfsParams
params_or_default none = tfs_default_params
params_or_default (some p) = p

abbrev is_root : Option ℕ → Bool
is_root none = false
is_root (some i) = i == root_dir_inum

-- The root directory's inode is made in the fresh tables. `none` is an abort, or memory that
-- was overrun.
unfoldable pub make_root : Memory → Option (Bool × Memory)
make_root (initialized s) = elim (inode_create t_directory s) [
  | none ↦ none
  | some (root, s') ↦ some (is_root root, initialized s')
]
make_root overrun = none
make_root m = some (false, m)

unfoldable pub tfs_init : Option TfsParams → Malloc → Memory → Option (Bool × Memory)
tfs_init params_ptr malloc memory =
    let (done, memory') = state_init (params_or_default params_ptr) malloc memory in
    if done then make_root memory' else some (false, memory')

unfoldable pub tfs_destroy : Memory → Bool × Memory
tfs_destroy memory = state_destroy memory

-- The default mutex blocks the thread that holds it already.
unfoldable pub mutex_lock : M (Unit {0})
mutex_lock = do
  held ← reads (λ s. s.g_library_mutex)
  branch held abort (modify (λ s. record s { g_library_mutex = true }))

unfoldable pub mutex_unlock : M (Unit {0})
mutex_unlock = modify (λ s. record s { g_library_mutex = false })

-- A path is a C string, or `none` for the null pointer.
abbrev first_char : Name → ℕ
first_char [] = 0
first_char (c ∷ r) = c

unfoldable pub valid_pathname : Option Name → Bool
valid_pathname none = false
valid_pathname (some name) = ltb 1 (length name) && first_char name == b'/'

-- `name + 1`
abbrev pub base_name : Option Name → Name
base_name none = []
base_name (some []) = []
base_name (some (c ∷ rest)) = rest

unfoldable pub tfs_lookup : Option Name → ℕ → M (Option ℕ)
tfs_lookup name root_inode =
    branch (valid_pathname name) (find_in_dir root_inode (base_name name)) (pure none)

-- `unlock; return result;`
unfoldable pub unlock_return : {A : Type 0} → A → M A
unlock_return a = do mutex_unlock; pure a

-- Truncate (if requested), and determine the initial offset.
unfoldable pub open_existing : ℕ → ℕ → M ℕ
open_existing mode inode = do
  size ← reads (λ s. (s.inode_table inode).i_size)
  branch (has_flag mode tfs_o_trunc && ltb 0 size)
      (do
        block ← reads (λ s. (s.inode_table inode).i_data_block)
        data_block_free block
        kind ← reads (λ s. (s.inode_table inode).i_node_type)
        set_inode inode (record { i_node_type = kind; i_size = 0; i_data_block = block }))
      (pure tt)
  size' ← reads (λ s. (s.inode_table inode).i_size)
  pure (if has_flag mode tfs_o_append then size' else 0)

unfoldable pub open_entry : ℕ → ℕ → M (Option ℕ)
open_entry inum offset = do ret ← add_to_open_file_table inum offset; unlock_return ret

-- The file does not exist: create its inode and its entry in the root directory.
unfoldable pub open_new : Option Name → ℕ → M (Option ℕ)
open_new name root = do
  inum ← inode_create t_file
  on_index inum (unlock_return none) (λ inum. do
    added ← add_dir_entry root (base_name name) inum
    branch added (open_entry inum 0) (do inode_delete inum; unlock_return none))

unfoldable pub open_valid : Option Name → ℕ → M (Option ℕ)
open_valid name mode = do
  root ← inode_get root_dir_inum
  inum ← tfs_lookup name root
  on_index inum (branch (has_flag mode tfs_o_creat) (open_new name root) (unlock_return none))
      (λ inum. do inode ← inode_get inum; offset ← open_existing mode inode; open_entry inum offset)

unfoldable pub tfs_open : Option Name → ℕ → M (Option ℕ)
tfs_open name mode = do
  mutex_lock
  branch (valid_pathname name) (open_valid name mode) (unlock_return none)

unfoldable pub tfs_close : Option ℕ → M Bool
tfs_close fhandle = do
  mutex_lock
  file ← get_open_file_entry fhandle
  on_index file (unlock_return false)
      (λ file. do remove_from_open_file_table file; unlock_return true)

-- `memcpy(block + offset, buffer, n)`. A copy that leaves the block, or that falls on a
-- directory's block, is outside the model.
abbrev pub copy_in : (ℕ → ℕ) → ℕ → (ℕ → ℕ) → ℕ → ℕ → ℕ
copy_in block offset buffer n k =
    if leb offset k && ltb k (offset + n) then buffer (k - offset) else block k

unfoldable pub write_block : Block → ℕ → (ℕ → ℕ) → ℕ → M Block
write_block (bytes b) offset buffer n = do
  block_size ← reads state_block_size
  branch (leb (offset + n) block_size) (pure (bytes (copy_in b offset buffer n))) abort
write_block (entries e) offset buffer n = abort

-- If the file is empty, allocate a new block.
unfoldable pub ensure_block : ℕ → M Bool
ensure_block inode = do
  node ← reads (λ s. s.inode_table inode)
  branch (node.i_size == 0)
      (do
        bnum ← data_block_alloc
        on_index bnum (pure false)
            (λ bnum. do set_inode inode (record node { i_data_block = some bnum }); pure true))
      (pure true)

-- Perform the write, and advance the offset and the size.
unfoldable pub store_bytes : ℕ → ℕ → (ℕ → ℕ) → ℕ → M (Unit {0})
store_bytes file inode buffer n = do
  node ← reads (λ s. s.inode_table inode)
  block ← data_block_get node.i_data_block
  content ← reads (λ s. s.fs_data block)
  entry ← reads (λ s. s.open_file_table file)
  written ← write_block content entry.of_offset buffer n
  modify (λ s. record s { fs_data = update s.fs_data block written })
  modify (λ s. record s {
    open_file_table =
        update s.open_file_table file (record entry { of_offset = add_size entry.of_offset n });
  })
  branch (ltb node.i_size (add_size entry.of_offset n))
      (set_inode inode (record node { i_size = add_size entry.of_offset n })) (pure tt)

-- How many bytes to write.
abbrev pub clamp_write : ℕ → ℕ → ℕ → ℕ
clamp_write block_size offset to_write =
    if ltb block_size (add_size to_write offset) then sub_size block_size offset else to_write

unfoldable pub write_file : ℕ → (ℕ → ℕ) → ℕ → M (Option ℕ)
write_file file buffer to_write = do
  entry ← reads (λ s. s.open_file_table file)
  inode ← inode_get entry.of_inumber
  block_size ← reads state_block_size
  let n = clamp_write block_size entry.of_offset to_write
  branch (ltb 0 n)
      (do
        ready ← ensure_block inode
        branch ready (do store_bytes file inode buffer n; unlock_return (some n))
            (unlock_return none))
      (unlock_return (some n))

unfoldable pub tfs_write : Option ℕ → (ℕ → ℕ) → ℕ → M (Option ℕ)
tfs_write fhandle buffer to_write = do
  mutex_lock
  file ← get_open_file_entry fhandle
  on_index file (unlock_return none) (λ file. write_file file buffer to_write)

-- The `n` bytes of memory from an address on.
unfoldable pub slice : (ℕ → ℕ) → ℕ → ℕ → List ℕ
slice m offset zero = []
slice m offset (suc n) = m offset ∷ slice m (offset + 1) n

-- `memcpy(buffer, block + offset, n)`, with the same limits.
unfoldable pub read_block : Block → ℕ → ℕ → M (List ℕ)
read_block (bytes b) offset n = do
  block_size ← reads state_block_size
  branch (leb (offset + n) block_size) (pure (slice b offset n)) abort
read_block (entries e) offset n = abort

-- How many bytes to read.
abbrev pub clamp_read : ℕ → ℕ → ℕ → ℕ
clamp_read size offset len = if ltb len (sub_size size offset) then len else sub_size size offset

unfoldable pub fetch_bytes : ℕ → ℕ → ℕ → M (List ℕ)
fetch_bytes file inode n = do
  node ← reads (λ s. s.inode_table inode)
  block ← data_block_get node.i_data_block
  content ← reads (λ s. s.fs_data block)
  entry ← reads (λ s. s.open_file_table file)
  out ← read_block content entry.of_offset n
  modify (λ s. record s {
    open_file_table =
        update s.open_file_table file (record entry { of_offset = add_size entry.of_offset n });
  })
  pure out

-- The result is the count, with the bytes that go to the caller's buffer.
unfoldable pub read_file : ℕ → ℕ → M (Option ℕ × List ℕ)
read_file file len = do
  entry ← reads (λ s. s.open_file_table file)
  inode ← inode_get entry.of_inumber
  size ← reads (λ s. (s.inode_table inode).i_size)
  let n = clamp_read size entry.of_offset len
  branch (ltb 0 n) (do out ← fetch_bytes file inode n; unlock_return (some n, out))
      (unlock_return (some n, []))

unfoldable pub tfs_read : Option ℕ → ℕ → M (Option ℕ × List ℕ)
tfs_read fhandle len = do
  mutex_lock
  file ← get_open_file_entry fhandle
  on_index file (unlock_return (none, [])) (λ file. read_file file len)

unfoldable pub unlink_valid : Option Name → M Bool
unlink_valid target = do
  root ← inode_get root_dir_inum
  inum ← tfs_lookup target root
  on_index inum (unlock_return false) (λ inum. do
    inode_delete inum
    cleared ← clear_dir_entry root (base_name target)
    unlock_return cleared)

unfoldable pub tfs_unlink : Option Name → M Bool
tfs_unlink target = do
  mutex_lock
  branch (valid_pathname target) (unlink_valid target) (unlock_return false)
