-- ===== src/Tfs/State.antt =====
-- fs2/state.c: the inode table, the data blocks, directories and the open file table. A pointer
-- into a table is the index; `insert_delay` only burns time, and is left out.
use so_project.Base.{
  ℕ, ◌*◌, ◌-◌, size_max, Bool, true, false, not, ◌&&◌, ◌||◌, Option, none, some, ltb, ◌==◌,
  if◌then◌else◌, update, first_index, Name, [], length, take, str_eq,
}
use so_project.Tfs.Types.{
  max_file_name, DirEntry, InodeType, t_file, t_directory, Inode, AllocationState, free, taken,
  OpenFileEntry, TfsParams, Block, bytes, entries, Fs, is_free, max_dir_entries, cleared_entries,
}
use so_project.Tfs.Types.{M}
use so_project.Base.Monad.{pure, ◌>>=◌, ◌>>◌, reads, modify, abort, branch, always_assert, on_index}

abbrev pub valid_inumber : ℕ → Fs → Bool
valid_inumber i s = ltb i s.fs_params.max_inode_count

abbrev pub valid_block_number : Option ℕ → Fs → Bool
valid_block_number none s = false
valid_block_number (some b) s = ltb b s.fs_params.max_block_count

abbrev pub valid_file_handle : Option ℕ → Fs → Bool
valid_file_handle none s = false
valid_file_handle (some h) s = ltb h s.fs_params.max_open_files_count

abbrev pub state_block_size : Fs → ℕ
state_block_size s = s.fs_params.block_size

-- What the six calls of `malloc` return; `none` for a null pointer. The contents are arbitrary.
pub record Malloc : Type 0 where
  pub inodes : Option (ℕ → Inode)
  pub inode_states : Option (ℕ → AllocationState)
  pub blocks : Option (ℕ → ℕ → ℕ)
  pub block_states : Option (ℕ → AllocationState)
  pub open_files : Option (ℕ → OpenFileEntry)
  pub open_states : Option (ℕ → AllocationState)

-- `for (i = 0; i < n; i++) table[i] = FREE;`
unfoldable pub free_all : ℕ → (ℕ → AllocationState) → ℕ → AllocationState
free_all n table i = if ltb i n then free else table i

-- The sizes that `malloc` is asked for are products of a `size_t` each, with 24 bytes for an inode
-- and 16 for an open file. When they do not wrap, the tables are as long as the parameters say.
abbrev pub sizes_fit : TfsParams → Bool
sizes_fit p =
    ltb (p.max_inode_count * 24) size_max
    && ltb (p.max_block_count * p.block_size) size_max
    && ltb (p.max_open_files_count * 16) size_max

-- The file system before `state_init`, and after a call that fails. `overrun` is after a write past
-- the end of a table that is too short.
pub data Memory : Type 0 where
  uninitialized overrun : Memory
  allocation_failed : TfsParams → Malloc → Memory
  initialized : Fs → Memory

-- The six tables and the state built from them, if no call of `malloc` failed.
unfoldable pub tables : TfsParams → Malloc → Option Fs
tables p m = elim m.inodes [
  | none ↦ none
  | some i ↦ elim m.inode_states [
    | none ↦ none
    | some fi ↦ elim m.blocks [
      | none ↦ none
      | some b ↦ elim m.block_states [
        | none ↦ none
        | some fb ↦ elim m.open_files [
          | none ↦ none
          | some o ↦ elim m.open_states [
            | none ↦ none
            | some fo ↦ some (record {
              fs_params = p;
              inode_table = i;
              freeinode_ts = free_all p.max_inode_count fi;
              fs_data = λ k. bytes (b k);
              free_blocks = free_all p.max_block_count fb;
              open_file_table = o;
              free_open_file_entries = free_all p.max_open_files_count fo;
              g_library_mutex = false;
            })
          ]
        ]
      ]
    ]
  ]
]

-- The tables, or the failure to allocate them.
abbrev allocate : TfsParams → Malloc → Bool × Memory
allocate p m = elim (tables p m) [
  | none ↦ (false, allocation_failed p m)
  | some s ↦ if sizes_fit p then (true, initialized s) else (true, overrun)
]

-- `fs_params` is assigned before the test for an earlier initialization.
unfoldable pub state_init : TfsParams → Malloc → Memory → Bool × Memory
unfolding tables
state_init p m (initialized s) = (false, initialized (record s { fs_params = p }))
state_init p m overrun = (false, overrun)
state_init p m (allocation_failed q n) = elim n.inodes [
  | some i ↦ (false, allocation_failed p n)
  | none ↦ allocate p m
]
state_init p m uninitialized = allocate p m

unfoldable pub state_destroy : Memory → Bool × Memory
state_destroy m = (true, uninitialized)

unfoldable pub inode_alloc : M (Option ℕ)
inode_alloc = do
  found ← reads (λ s. first_index (λ i. is_free (s.freeinode_ts i)) s.fs_params.max_inode_count 0)
  on_index found (pure none) (λ inumber. do
    modify (λ s. record s { freeinode_ts = update s.freeinode_ts inumber taken })
    pure (some inumber))

unfoldable pub data_block_alloc : M (Option ℕ)
data_block_alloc = do
  found ← reads (λ s. first_index (λ i. is_free (s.free_blocks i)) s.fs_params.max_block_count 0)
  on_index found (pure none)
      (λ i. do modify (λ s. record s { free_blocks = update s.free_blocks i taken }); pure (some i))

unfoldable pub data_block_free : Option ℕ → M (Unit {0})
data_block_free b = do
  valid ← reads (valid_block_number b)
  always_assert valid
  on_index b abort (λ i. modify (λ s. record s { free_blocks = update s.free_blocks i free }))

unfoldable pub data_block_get : Option ℕ → M ℕ
data_block_get b = do
  valid ← reads (valid_block_number b)
  always_assert valid
  on_index b abort (λ i. pure i)

-- `inode->i_node_type = …; inode->i_size = …; inode->i_data_block = …`
unfoldable pub set_inode : ℕ → Inode → M (Unit {0})
set_inode i n = modify (λ s. record s { inode_table = update s.inode_table i n })

unfoldable pub inode_delete : ℕ → M (Unit {0})
inode_delete inumber = do
  valid ← reads (valid_inumber inumber)
  always_assert valid
  state ← reads (λ s. s.freeinode_ts inumber)
  always_assert (not (is_free state))
  inode ← reads (λ s. s.inode_table inumber)
  branch (ltb 0 inode.i_size) (data_block_free inode.i_data_block) (pure tt)
  modify (λ s. record s { freeinode_ts = update s.freeinode_ts inumber free })

unfoldable pub create_directory : ℕ → M (Option ℕ)
create_directory inumber = do
  b ← data_block_alloc
  on_index b
      (do
        set_inode inumber (record { i_node_type = t_directory; i_size = 0; i_data_block = none })
        inode_delete inumber
        pure none)
      (λ b. do
        size ← reads state_block_size
        set_inode inumber
            (record { i_node_type = t_directory; i_size = size; i_data_block = some b })
        block ← data_block_get (some b)
        modify (λ s. record s {
          fs_data = update s.fs_data block (entries (cleared_entries (s.fs_data block)));
        })
        pure (some inumber))

unfoldable pub create_file : ℕ → M (Option ℕ)
create_file inumber = do
  set_inode inumber (record { i_node_type = t_file; i_size = 0; i_data_block = none })
  pure (some inumber)

abbrev create_typed : InodeType → ℕ → M (Option ℕ)
create_typed t_directory = create_directory
create_typed t_file = create_file

unfoldable pub inode_create : InodeType → M (Option ℕ)
inode_create i_type = do inumber ← inode_alloc; on_index inumber (pure none) (create_typed i_type)

unfoldable pub inode_get : ℕ → M ℕ
inode_get inumber = do valid ← reads (valid_inumber inumber); always_assert valid; pure inumber

-- The entries in a directory's block; bytes read as entries are outside the model.
unfoldable pub dir_entries : Block → M (ℕ → DirEntry)
dir_entries (entries e) = pure e
dir_entries (bytes b) = abort

abbrev pub is_directory : InodeType → Bool
is_directory t_directory = true
is_directory t_file = false

abbrev pub is_none : Option ℕ → Bool
is_none none = true
is_none (some i) = false

-- The test of the loop of `find_in_dir`. `strncmp` compares at most 40 characters.
abbrev pub is_entry_of : Name → DirEntry → Bool
is_entry_of sub_name e =
    not (is_none e.d_inumber) && str_eq (take max_file_name e.d_name) (take max_file_name sub_name)

unfoldable pub find_in_dir : ℕ → Name → M (Option ℕ)
find_in_dir inode sub_name = do
  dir ← reads (λ s. s.inode_table inode)
  branch (is_directory dir.i_node_type)
      (do
        block ← data_block_get dir.i_data_block
        content ← reads (λ s. s.fs_data block)
        dir_entry ← dir_entries content
        n ← reads max_dir_entries
        on_index (first_index (λ i. is_entry_of sub_name (dir_entry i)) n 0) (pure none)
            (λ i. pure (dir_entry i).d_inumber))
      (pure none)

-- Results 0 and -1 are `true` and `false`.
unfoldable pub clear_dir_entry : ℕ → Name → M Bool
clear_dir_entry inode sub_name = do
  dir ← reads (λ s. s.inode_table inode)
  branch (is_directory dir.i_node_type)
      (do
        block ← data_block_get dir.i_data_block
        content ← reads (λ s. s.fs_data block)
        dir_entry ← dir_entries content
        n ← reads max_dir_entries
        on_index (first_index (λ i. str_eq (dir_entry i).d_name sub_name) n 0) (pure false) (λ i. do
          modify (λ s. record s {
            fs_data =
                update s.fs_data block
                  (entries (update dir_entry i (record { d_name = []; d_inumber = none })));
          })
          pure true))
      (pure false)

unfoldable pub add_dir_entry : ℕ → Name → ℕ → M Bool
add_dir_entry inode sub_name sub_inumber =
    branch (length sub_name == 0 || ltb (max_file_name - 1) (length sub_name)) (pure false) (do
      dir ← reads (λ s. s.inode_table inode)
      branch (is_directory dir.i_node_type)
          (do
            block ← data_block_get dir.i_data_block
            content ← reads (λ s. s.fs_data block)
            dir_entry ← dir_entries content
            n ← reads max_dir_entries
            on_index (first_index (λ i. is_none (dir_entry i).d_inumber) n 0) (pure false) (λ i. do
              modify (λ s. record s {
                fs_data = update s.fs_data block (
                    entries (
                      update dir_entry i (record {
                        d_name = take (max_file_name - 1) sub_name;
                        d_inumber = some sub_inumber;
                      })));
              })
              pure true))
          (pure false))

unfoldable pub add_to_open_file_table : ℕ → ℕ → M (Option ℕ)
add_to_open_file_table inumber offset = do
  found ← reads (λ s.
      first_index (λ i. is_free (s.free_open_file_entries i)) s.fs_params.max_open_files_count 0)
  on_index found (pure none) (λ i. do
    modify (λ s. record s {
      free_open_file_entries = update s.free_open_file_entries i taken;
      open_file_table =
          update s.open_file_table i (record { of_inumber = inumber; of_offset = offset });
    })
    pure (some i))

unfoldable pub remove_from_open_file_table : ℕ → M (Unit {0})
remove_from_open_file_table fhandle = do
  valid ← reads (valid_file_handle (some fhandle))
  always_assert valid
  state ← reads (λ s. s.free_open_file_entries fhandle)
  always_assert (not (is_free state))
  modify (λ s. record s { free_open_file_entries = update s.free_open_file_entries fhandle free })

-- The entry is named by its index; `none` is the null pointer.
unfoldable pub get_open_file_entry : Option ℕ → M (Option ℕ)
get_open_file_entry fhandle = do
  valid ← reads (valid_file_handle fhandle)
  branch valid
      (on_index fhandle (pure none) (λ h. do
        state ← reads (λ s. s.free_open_file_entries h)
        branch (is_free state) (pure none) (pure (some h))))
      (pure none)
