-- ===== src/Tfs/Tests.antt =====
-- Runs of the file system on small parameters.
use so_project.Base.{
  ℕ, ◌+◌, ◌^◌, ◌≡◌, refl, Bool, true, Option, none, some, List, [], ◌∷◌, Name, first_index, str_eq,
  c_string,
}
use so_project.Tfs.Types.{t_file, taken, TfsParams, cleared_entries}
use so_project.Tfs.Types.{M}
use so_project.Base.Monad.{pure, ◌>>=◌, ◌>>◌, reads, modify, abort, branch, always_assert, on_index}
use so_project.Tfs.State.{
  Malloc, Memory, uninitialized, overrun, initialized, tables, state_init, free_all, inode_alloc,
  inode_create, create_file, create_directory, inode_delete, inode_get, dir_entries, find_in_dir,
  clear_dir_entry, add_dir_entry, data_block_alloc, data_block_free, data_block_get,
  add_to_open_file_table, remove_from_open_file_table, get_open_file_entry, set_inode,
}
use so_project.Tfs.Operations.{
  make_root, tfs_init, mutex_lock, mutex_unlock, valid_pathname, tfs_lookup, unlock_return,
  open_existing, open_entry, open_new, open_valid, tfs_open, tfs_close, write_block, ensure_block,
  store_bytes, write_file, tfs_write, slice, read_block, fetch_bytes, read_file, tfs_read,
  unlink_valid, tfs_unlink, tfs_o_creat,
}

-- Unfolding this name opens every function of the file system.
machine : Unit {0}
unfolding first_index str_eq c_string cleared_entries pure ◌>>=◌ ◌>>◌ reads modify abort branch
    always_assert on_index tables state_init free_all inode_alloc inode_create create_file
    create_directory inode_delete inode_get dir_entries find_in_dir clear_dir_entry add_dir_entry
    data_block_alloc data_block_free data_block_get add_to_open_file_table
    remove_from_open_file_table get_open_file_entry set_inode make_root tfs_init mutex_lock
    mutex_unlock valid_pathname tfs_lookup unlock_return open_existing open_entry open_new
    open_valid tfs_open tfs_close write_block ensure_block store_bytes write_file tfs_write slice
    read_block fetch_bytes read_file tfs_read unlink_valid tfs_unlink
machine = tt

abbrev small : TfsParams
small = record {
  max_inode_count = 4;
  max_block_count = 4;
  max_open_files_count = 3;
  block_size = 132;
}

abbrev zeroed : Malloc
zeroed = record {
  inodes = some (λ i. record { i_node_type = t_file; i_size = 0; i_data_block = none });
  inode_states = some (λ i. taken);
  blocks = some (λ i k. 0);
  block_states = some (λ i. taken);
  open_files = some (λ i. record { of_inumber = 0; of_offset = 0 });
  open_states = some (λ i. taken);
}

abbrev file_a : Option Name
file_a = some (b'/' ∷ b'a' ∷ [])

abbrev message : ℕ → ℕ
message k = k + 7

abbrev script : M (Option ℕ × Option ℕ × List ℕ × Bool)
script = do
  f ← tfs_open file_a tfs_o_creat
  w ← tfs_write f message 3
  c ← tfs_close f
  g ← tfs_open file_a 0
  r ← tfs_read g 2
  u ← tfs_unlink file_a
  pure (f, w, r.1, u)

result : Option (Bool × Memory) → Option (Option ℕ × Option ℕ × List ℕ × Bool)
unfolding machine
result (some (true, initialized s)) = elim (script s) [ none ↦ none | some (a, s') ↦ some a ]
result _ = none

script_runs :
    result (tfs_init (some small) zeroed uninitialized) ≡ some (some 0, some 3, 7 ∷ 8 ∷ [], true)
unfolding result machine
script_runs = refl

abbrev huge : TfsParams
huge = record small { max_block_count = 2 ^ 32; block_size = 2 ^ 32 }

-- 2^64 bytes of blocks are none for `malloc`.
huge_overruns : state_init huge zeroed uninitialized ≡ (true, overrun)
unfolding machine
huge_overruns = refl
