-- ===== src/LinkFs/Transfer.antt =====
-- fs/operations.c: writing, reading, and copying a file of the host.
use so_project.Base.{
  ℕ, ◌+◌, Bool, true, false, Option, none, some, List, [], ltb, leb, ◌==◌, add_size, update, Name,
}
use so_project.Base.Monad.{pure, ◌>>=◌, ◌>>◌, reads, modify, abort, branch, on_index}
use so_project.Tfs.Types.{Block, bytes, entries}
use so_project.Tfs.Operations.{tfs_o_creat, tfs_o_trunc, clamp_write, clamp_read, copy_in, slice}
use so_project.LinkFs.Types.{V, lock, unlock, set_entry_lock}
use so_project.LinkFs.State.{
  state_block_size, set_inode, data_block_alloc, data_block_get, inode_get,
}
use so_project.LinkFs.Tables.{get_open_file_entry}
use so_project.LinkFs.Operations.{lock_inode, unlock_inode, tfs_open, tfs_close}

-- `rwl_unlock(inode); mutex_unlock(file); return result;`
unfoldable pub release : {A : Type 0} → ℕ → ℕ → A → V A
release file i a = do unlock_inode i; unlock (set_entry_lock file); pure a

-- `memcpy(block + offset, buffer, n)`. A copy that leaves the block, or that falls on a
-- directory's block, is outside the model.
unfoldable pub write_block : Block → ℕ → (ℕ → ℕ) → ℕ → V Block
write_block (bytes b) offset buffer n = do
  block_size ← reads state_block_size
  branch (leb (offset + n) block_size) (pure (bytes (copy_in b offset buffer n))) abort
write_block (entries e) offset buffer n = abort

-- If the file is empty, allocate a new block.
unfoldable pub ensure_block : ℕ → V Bool
ensure_block inode = do
  node ← reads (λ s. s.inode_table inode)
  branch (node.i_size == 0)
      (do
        bnum ← data_block_alloc
        on_index bnum (pure false)
            (λ bnum. do set_inode inode (record node { i_data_block = some bnum }); pure true))
      (pure true)

-- Perform the write in `block`, and advance the offset and the size.
unfoldable pub store_bytes : ℕ → ℕ → (ℕ → ℕ) → ℕ → ℕ → V (Unit {0})
store_bytes file inode buffer n block = do
  node ← reads (λ s. s.inode_table inode)
  content ← reads (λ s. s.fs_data block)
  entry ← reads (λ s. s.open_file_table file)
  written ← write_block content entry.of_offset buffer n
  modify (λ s. record s { fs_data = update s.fs_data block written })
  modify (λ s. record s {
    open_file_table =
        update s.open_file_table file (record entry { of_offset = add_size entry.of_offset n });
  })
  branch (ltb node.i_size (add_size entry.of_offset n))
      (set_inode inode (record node { i_size = add_size entry.of_offset n })) (pure tt)

-- The file's entry and its inode, both locked.
unfoldable pub lock_file : ℕ → V ℕ
lock_file file = do
  lock (λ s. s.entry_lock file) (set_entry_lock file)
  inum ← reads (λ s. (s.open_file_table file).of_inumber)
  inode ← inode_get inum
  on_index inode abort (λ i. do lock_inode i; pure i)

unfoldable pub write_file : (ℕ → ℕ) → ℕ → ℕ → V (Option ℕ)
write_file buffer to_write file = do
  i ← lock_file file
  block_size ← reads state_block_size
  offset ← reads (λ s. (s.open_file_table file).of_offset)
  let n = clamp_write block_size offset to_write
  branch (ltb 0 n)
      (do
        ready ← ensure_block i
        branch ready
            (do
              block ← reads (λ s. (s.inode_table i).i_data_block)
              got ← data_block_get block
              on_index got (release file i none)
                  (λ d. do store_bytes file i buffer n d; release file i (some n)))
            (release file i none))
      (release file i (some n))

unfoldable pub tfs_write : Option ℕ → (ℕ → ℕ) → ℕ → V (Option ℕ)
tfs_write fhandle buffer to_write = do
  file ← get_open_file_entry fhandle
  on_index file (pure none) (write_file buffer to_write)

-- `memcpy(buffer, block + offset, n)`, with the same limits.
unfoldable pub read_block : Block → ℕ → ℕ → V (List ℕ)
read_block (bytes b) offset n = do
  block_size ← reads state_block_size
  branch (leb (offset + n) block_size) (pure (slice b offset n)) abort
read_block (entries e) offset n = abort

unfoldable pub fetch_bytes : ℕ → ℕ → ℕ → V (List ℕ)
fetch_bytes file n block = do
  content ← reads (λ s. s.fs_data block)
  entry ← reads (λ s. s.open_file_table file)
  out ← read_block content entry.of_offset n
  modify (λ s. record s {
    open_file_table =
        update s.open_file_table file (record entry { of_offset = add_size entry.of_offset n });
  })
  pure out

unfoldable pub read_file : ℕ → ℕ → V (Option ℕ × List ℕ)
read_file len file = do
  i ← lock_file file
  size ← reads (λ s. (s.inode_table i).i_size)
  offset ← reads (λ s. (s.open_file_table file).of_offset)
  let n = clamp_read size offset len
  branch (ltb 0 n)
      (do
        block ← reads (λ s. (s.inode_table i).i_data_block)
        got ← data_block_get block
        on_index got (release file i (none, []))
            (λ d. do out ← fetch_bytes file n d; release file i (some n, out)))
      (release file i (some n, []))

unfoldable pub tfs_read : Option ℕ → ℕ → V (Option ℕ × List ℕ)
tfs_read fhandle len = do
  file ← get_open_file_entry fhandle
  on_index file (pure (none, [])) (read_file len)

-- What `fopen`, `fread` of the block size and one more byte, and `fclose` give: the bytes and how
-- many, and whether the file closes. `none` is a file that does not open, or an error of `fread`.
pub record Source : Type 0 where
  pub content : ℕ → ℕ
  pub bytes_read : ℕ
  pub closes : Bool

-- The file is open in TFS: write and close it. `fclose` is asked first.
unfoldable pub copy_to : Source → Option ℕ → V Bool
copy_to source fd = do
  bytes_size ← tfs_write fd source.content source.bytes_read
  on_index bytes_size (do tfs_close fd; pure false)
      (λ n. branch source.closes (tfs_close fd) (pure false))

-- A count of `fread` is at most what it was asked for.
unfoldable pub tfs_copy_from_external_fs : ℕ → Option Source → Option Name → V Bool
tfs_copy_from_external_fs fuel none dest_path = pure false
tfs_copy_from_external_fs fuel (some source) dest_path = do
  block_size ← reads state_block_size
  branch (ltb block_size source.bytes_read) (pure false) (do
    fd ← tfs_open fuel dest_path (tfs_o_trunc + tfs_o_creat)
    on_index fd (pure false) (λ h. copy_to source (some h)))
