-- ===== src/LinkFs/Tests.antt =====
-- Runs of fs/ on small parameters.
use so_project.Base.{
  ℕ, ◌+◌, ◌≡◌, refl, Bool, true, false, Option, none, some, List, [], ◌∷◌, Name, first_index,
  str_eq, c_string,
}
use so_project.Tfs.Types.{taken, TfsParams, cleared_entries}
use so_project.Tfs.State.{free_all}
use so_project.Tfs.Operations.{valid_pathname, slice, tfs_o_creat}
use so_project.Protocol.Memory.{char_at}
use so_project.Base.Monad.{pure, ◌>>=◌, ◌>>◌, reads, modify, abort, branch, on_index}
use so_project.LinkFs.Types.{t_file, V, lock, unlock}
use so_project.LinkFs.State.{
  set_inode, inode_alloc, data_block_alloc, free_block, data_block_free, data_block_get,
  delete_taken, inode_delete, create_directory, create_plain, inode_create, inode_get,
  inode_rwl_get, dir_entries,
}
use so_project.LinkFs.Tables.{
  Malloc, Memory, uninitialized, initialized, search_dir, clear_dir_entry, add_dir_entry,
  find_in_dir, fill_entry, add_to_open_file_table, remove_from_open_file_table, get_open_file_entry,
  is_in_open_file_table, state_init, state_destroy,
}
use so_project.LinkFs.Operations.{
  make_root, tfs_init, tfs_destroy, tfs_lookup, unlock_return, root_dir, path_in, link_target,
  open_link, open_plain, open_existing, open_new, open_valid, tfs_open, store_path, link_to,
  link_targets, sym_link_valid, tfs_sym_link, hard_link, link_valid, tfs_link, tfs_close, drop_link,
  is_busy, tfs_unlink,
}
use so_project.LinkFs.Transfer.{
  Source, release, write_block, ensure_block, store_bytes, lock_file, write_file, tfs_write,
  read_block, fetch_bytes, read_file, tfs_read, copy_to, tfs_copy_from_external_fs,
}

-- Unfolding this name opens every function of the file system.
machine : Unit {0}
unfolding first_index str_eq c_string cleared_entries free_all valid_pathname slice char_at pure
    ◌>>=◌ ◌>>◌ reads modify abort branch on_index lock unlock set_inode inode_alloc data_block_alloc
    free_block data_block_free data_block_get delete_taken inode_delete create_directory
    create_plain inode_create inode_get inode_rwl_get dir_entries search_dir clear_dir_entry
    add_dir_entry find_in_dir fill_entry add_to_open_file_table remove_from_open_file_table
    get_open_file_entry is_in_open_file_table state_init state_destroy make_root tfs_init
    tfs_destroy tfs_lookup unlock_return root_dir path_in link_target open_link open_plain
    open_existing open_new open_valid tfs_open store_path link_to link_targets sym_link_valid
    tfs_sym_link hard_link link_valid tfs_link tfs_close drop_link is_busy tfs_unlink release
    write_block ensure_block store_bytes lock_file write_file tfs_write read_block fetch_bytes
    read_file tfs_read copy_to tfs_copy_from_external_fs
machine = tt

abbrev small : TfsParams
small = record {
  max_inode_count = 4;
  max_block_count = 4;
  max_open_files_count = 3;
  block_size = 132;
}

abbrev zeroed : Malloc
zeroed = record {
  inodes =
      some
        (λ i. record { i_node_type = t_file; i_links_count = 0; i_size = 0; i_data_block = none });
  inode_locks = some (λ i. false);
  inode_states = some (λ i. taken);
  blocks = some (λ i k. 0);
  block_states = some (λ i. taken);
  open_files = some (λ i. record { of_inumber = 0; of_offset = 0 });
  entry_locks = λ i. false;
  open_states = some (λ i. taken);
}

abbrev file_a : Option Name
file_a = some (b'/' ∷ b'a' ∷ [])

abbrev file_b : Option Name
file_b = some (b'/' ∷ b'b' ∷ [])

abbrev file_c : Option Name
file_c = some (b'/' ∷ b'c' ∷ [])

run : {A : Type 0} → V A → Option (Bool × Memory) → Option A
unfolding machine
run script (some (true, initialized s)) = elim (script s) [ none ↦ none | some (a, s') ↦ some a ]
run script _ = none

abbrev source : Source
source = record { content = λ k. k + 7; bytes_read = 3; closes = true }

-- A file is copied in, named twice, and read by its second name and by a link.
abbrev two_paths : V (Bool × Bool × Bool × Bool × List ℕ × List ℕ)
two_paths = do
  copied_in ← tfs_copy_from_external_fs 1 (some source) file_a
  linked ← tfs_link file_a file_b
  sym_linked ← tfs_sym_link file_b file_c
  gone ← tfs_unlink file_a
  f ← tfs_open 1 file_b 0
  r ← tfs_read f 2
  g ← tfs_open 2 file_c 0
  t ← tfs_read g 9
  pure (copied_in, linked, sym_linked, gone, r.1, t.1)

two_paths_runs :
    run two_paths (tfs_init (some small) zeroed uninitialized)
    ≡ some (true, true, true, true, 7 ∷ 8 ∷ [], 7 ∷ 8 ∷ 9 ∷ [])
unfolding run machine
two_paths_runs = refl

-- A link to a file, and then a link to that link in place of the file.
abbrev make_cycle : V (Bool × Bool × Bool)
make_cycle = do
  f ← tfs_open 1 file_a tfs_o_creat
  closed ← tfs_close f
  first ← tfs_sym_link file_a file_b
  gone ← tfs_unlink file_a
  second ← tfs_sym_link file_b file_a
  pure (first, gone, second)

make_cycle_runs :
    run make_cycle (tfs_init (some small) zeroed uninitialized) ≡ some (true, true, true)
unfolding run machine
make_cycle_runs = refl

cycle_exhausts :
    run (do make_cycle; tfs_open 20 file_a 0) (tfs_init (some small) zeroed uninitialized) ≡ none
unfolding run machine
cycle_exhausts = refl
