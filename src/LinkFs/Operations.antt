-- ===== src/LinkFs/Operations.antt =====
-- fs/operations.c: opening and closing, hard and symbolic links, and removal.
use so_project.Base.{
  ℕ, zero, suc, ◌+◌, ◌-◌, ◌%◌, ◌^◌, Bool, true, false, ◌&&◌, Option, none, some, ltb, leb, ◌==◌,
  if◌then◌else◌, update, Name, [], length, c_string,
}
use so_project.Base.Monad.{pure, ◌>>=◌, ◌>>◌, reads, modify, abort, branch, on_index}
use so_project.Tfs.Types.{root_dir_inum, max_file_name, TfsParams, Block, bytes, entries}
use so_project.Tfs.Operations.{
  tfs_o_creat, tfs_o_trunc, tfs_o_append, has_flag, tfs_default_params, valid_pathname, base_name,
}
use so_project.Protocol.Memory.{char_at}
use so_project.LinkFs.Types.{
  InodeType, t_file, t_directory, t_link, V, lock, unlock, set_inode_lock,
}
use so_project.LinkFs.State.{
  state_block_size, set_inode, data_block_alloc, data_block_free, data_block_get, inode_create,
  inode_delete, inode_get, is_directory,
}
use so_project.LinkFs.Tables.{
  clear_dir_entry, add_dir_entry, find_in_dir, add_to_open_file_table, remove_from_open_file_table,
  get_open_file_entry, is_in_open_file_table, Malloc, Memory, initialized, state_init,
  state_destroy,
}

abbrev params_or_default : Option TfsParams → TfsParams
params_or_default none = tfs_default_params
params_or_default (some p) = p

abbrev is_root : Option ℕ → Bool
is_root none = false
is_root (some i) = i == root_dir_inum

unfoldable pub make_root : Memory → Option (Bool × Memory)
make_root (initialized s) = elim (inode_create t_directory s) [
  | none ↦ none
  | some (root, s') ↦ some (is_root root, initialized s')
]
make_root m = none

unfoldable pub tfs_init : Option TfsParams → Malloc → Memory → Option (Bool × Memory)
tfs_init params_ptr malloc memory =
    let (done, memory') = state_init (params_or_default params_ptr) malloc memory in
    if done then make_root memory' else some (false, memory')

unfoldable pub tfs_destroy : Memory → Bool × Memory
tfs_destroy memory = state_destroy memory

unfoldable pub tfs_lookup : Option Name → ℕ → V (Option ℕ)
tfs_lookup name root_inode =
    branch (valid_pathname name)
      (do
        node ← reads (λ s. s.inode_table root_inode)
        branch (is_directory node.i_node_type) (find_in_dir root_inode (base_name name))
            (pure none))
      (pure none)

abbrev pub lock_inode : ℕ → V (Unit {0})
lock_inode i = lock (λ s. s.inode_rwl i) (set_inode_lock i)

abbrev pub unlock_inode : ℕ → V (Unit {0})
unlock_inode i = unlock (set_inode_lock i)

-- `rwl_unlock(root); return result;`
unfoldable pub unlock_return : {A : Type 0} → ℕ → A → V A
unlock_return i a = do unlock_inode i; pure a

-- The root's inode, and its lock, are dereferenced without a test.
unfoldable pub root_dir : V ℕ
root_dir = do root ← inode_get root_dir_inum; on_index root abort pure

abbrev pub is_link : InodeType → Bool
is_link t_link = true
is_link t_file = false
is_link t_directory = false

-- The path in a block, copied to an array of 40 characters. A path that does not fit there, or that
-- does not end in its block, is outside the model.
unfoldable pub path_in : Block → V Name
path_in (bytes b) = do
  size ← reads state_block_size
  let path = c_string size b
  branch (ltb (length path) size && ltb (length path) max_file_name) (pure path) abort
path_in (entries e) = abort

unfoldable pub link_target : Option ℕ → V Name
link_target block = do
  block ← data_block_get block
  on_index block abort (λ block. do content ← reads (λ s. s.fs_data block); path_in content)

-- A symbolic link, its lock held: `follow` opens the path that it holds.
unfoldable pub open_link : (Name → V (Option ℕ)) → ℕ → ℕ → V (Option ℕ)
open_link follow mode i = branch (has_flag mode tfs_o_creat) (unlock_return i none) (do
  block ← reads (λ s. (s.inode_table i).i_data_block)
  target ← link_target block
  unlock_inode i
  follow target)

-- Truncate (if requested), and determine the initial offset.
unfoldable pub open_plain : ℕ → ℕ → V (Option ℕ)
open_plain mode i = do
  node ← reads (λ s. s.inode_table i)
  branch (has_flag mode tfs_o_trunc && ltb 0 node.i_size)
      (do data_block_free node.i_data_block; set_inode i (record node { i_size = 0 })) (pure tt)
  size ← reads (λ s. (s.inode_table i).i_size)
  unlock_inode i
  add_to_open_file_table i (if has_flag mode tfs_o_append then size else 0)

-- The file exists, and the root's lock is let go.
unfoldable pub open_existing : (Name → V (Option ℕ)) → ℕ → ℕ → V (Option ℕ)
open_existing follow mode inum = do
  inode ← inode_get inum
  on_index inode abort (λ i. do
    lock_inode i
    kind ← reads (λ s. (s.inode_table i).i_node_type)
    branch (is_link kind) (open_link follow mode i) (open_plain mode i))

-- The file does not exist: create its inode and its entry, and let go of the root's lock.
unfoldable pub open_new : Option Name → ℕ → V (Option ℕ)
open_new name root = do
  inum ← inode_create t_file
  on_index inum (unlock_return root none) (λ inum. do
    added ← add_dir_entry root (base_name name) inum
    branch added (do unlock_inode root; add_to_open_file_table inum 0)
        (do inode_delete inum; unlock_return root none))

-- The path is valid.
unfoldable pub open_valid : (Name → V (Option ℕ)) → Option Name → ℕ → V (Option ℕ)
open_valid follow name mode = do
  root ← inode_get root_dir_inum
  on_index root (pure none) (λ root. do
    lock_inode root
    inum ← tfs_lookup name root
    on_index inum
        (branch (has_flag mode tfs_o_creat) (open_new name root) (unlock_return root none))
        (λ inum. do unlock_inode root; open_existing follow mode inum))

-- The fuel is the depth of the recursion over symbolic links.
unfoldable pub tfs_open : ℕ → Option Name → ℕ → V (Option ℕ)
tfs_open zero name mode = abort
tfs_open (suc fuel) name mode =
    branch (valid_pathname name) (open_valid (λ target. tfs_open fuel (some target) mode) name mode)
      (pure none)

-- `memcpy(block, target, strlen(target) + 1)`. A path that leaves the block, and a directory's
-- block, are outside the model.
unfoldable pub store_path : Name → Block → V Block
store_path target (bytes b) = do
  size ← reads state_block_size
  branch (ltb (length target) size)
      (pure (bytes (λ k. if leb k (length target) then char_at target k else b k))) abort
store_path target (entries e) = abort

abbrev path_of : Option Name → Name
path_of none = []
path_of (some p) = p

-- The link's inode is there: give it a block with the path, and an entry.
unfoldable pub link_to : Name → Option Name → ℕ → ℕ → V Bool
link_to target link_name root new_inum = do
  new_bnum ← data_block_alloc
  on_index new_bnum (do inode_delete new_inum; unlock_return root false)
      (λ new_bnum. do
        block ← data_block_get (some new_bnum)
        on_index block abort (λ block. do
          content ← reads (λ s. s.fs_data block)
          written ← store_path target content
          modify (λ s. record s { fs_data = update s.fs_data block written })
          node ← reads (λ s. s.inode_table new_inum)
          set_inode new_inum (record node { i_data_block = some new_bnum })
          added ← add_dir_entry root (base_name link_name) new_inum
          branch added (unlock_return root true)
              (do inode_delete new_inum; unlock_return root false)))

-- The root's lock is held: the target's inode, if it exists and the link's name is new.
unfoldable pub link_targets : Option Name → Option Name → ℕ → V (Option ℕ)
link_targets target link_name root = do
  target_inumber ← tfs_lookup target root
  on_index target_inumber (pure none) (λ target_inumber. do
    other ← tfs_lookup link_name root
    on_index other (pure (some target_inumber)) (λ i. pure none))

unfoldable pub sym_link_valid : Option Name → Option Name → V Bool
sym_link_valid target link_name = do
  root ← root_dir
  lock_inode root
  target_inumber ← link_targets target link_name root
  on_index target_inumber (unlock_return root false) (λ target_inumber. do
    new_inum ← inode_create t_link
    on_index new_inum (unlock_return root false) (link_to (path_of target) link_name root))

unfoldable pub tfs_sym_link : Option Name → Option Name → V Bool
tfs_sym_link target link_name =
    branch (valid_pathname link_name) (sym_link_valid target link_name) (pure false)

-- `i_links_count` is an `unsigned int`.
abbrev pub links_up : ℕ → ℕ
links_up n = (n + 1) % 2 ^ 32

abbrev pub links_down : ℕ → ℕ
links_down n = (n + 2 ^ 32 - 1) % 2 ^ 32

-- Both locks are held: a symbolic link is refused, and another file gets one more name.
unfoldable pub hard_link : Option Name → ℕ → ℕ → V Bool
hard_link link_name root i = do
  kind ← reads (λ s. (s.inode_table i).i_node_type)
  branch (is_link kind) (do unlock_inode i; unlock_return root false)
      (do
        added ← add_dir_entry root (base_name link_name) i
        branch added
            (do
              node ← reads (λ s. s.inode_table i)
              set_inode i (record node { i_links_count = links_up node.i_links_count })
              unlock_inode i
              unlock_return root true)
            (do unlock_inode i; unlock_return root false))

unfoldable pub link_valid : Option Name → Option Name → V Bool
link_valid target link_name = do
  root ← root_dir
  lock_inode root
  target_inumber ← link_targets target link_name root
  on_index target_inumber (unlock_return root false) (λ target_inumber. do
    inode ← inode_get target_inumber
    on_index inode abort (λ i. do lock_inode i; hard_link link_name root i))

unfoldable pub tfs_link : Option Name → Option Name → V Bool
tfs_link target link_name =
    branch (valid_pathname link_name) (link_valid target link_name) (pure false)

unfoldable pub tfs_close : Option ℕ → V Bool
tfs_close fhandle = do
  file ← get_open_file_entry fhandle
  on_index file (pure false) (λ file. do remove_from_open_file_table file; pure true)

-- The entry is gone, and both locks are held: one name less, or none and the inode goes. When the
-- inode cannot be deleted, the target's lock stays held.
unfoldable pub drop_link : ℕ → ℕ → V Bool
drop_link root i = do
  node ← reads (λ s. s.inode_table i)
  branch (node.i_links_count == 1)
      (do
        deleted ← inode_delete i
        branch deleted (do unlock_inode i; unlock_return root true) (unlock_return root false))
      (do
        set_inode i (record node { i_links_count = links_down node.i_links_count })
        unlock_inode i
        unlock_return root true)

-- Whether the file is open; it is not asked for a symbolic link.
unfoldable pub is_busy : ℕ → V Bool
is_busy i = do
  kind ← reads (λ s. (s.inode_table i).i_node_type)
  branch (is_link kind) (pure false) (is_in_open_file_table i)

unfoldable pub tfs_unlink : Option Name → V Bool
tfs_unlink target = do
  root ← root_dir
  lock_inode root
  target_inum ← tfs_lookup target root
  on_index target_inum (unlock_return root false) (λ target_inum. do
    inode ← inode_get target_inum
    on_index inode abort (λ i. do
      busy ← is_busy i
      branch busy (unlock_return root false) (do
        cleared ← clear_dir_entry root (base_name target)
        branch cleared (do lock_inode i; drop_link root i) (unlock_return root false))))
