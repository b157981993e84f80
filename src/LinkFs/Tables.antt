-- ===== src/LinkFs/Tables.antt =====
-- fs/state.c, the rest: the directory, the open file table, initialization.
use so_project.Base.{
  ℕ, ◌-◌, ◌*◌, ◌^◌, size_max, Bool, true, false, not, ◌&&◌, ◌||◌, Option, none, some, ltb, ◌==◌,
  if◌then◌else◌, update, first_index, Name, [], length, take, str_eq,
}
use so_project.Base.Monad.{pure, ◌>>=◌, ◌>>◌, reads, modify, abort, branch, on_index}
use so_project.Tfs.Types.{
  max_file_name, DirEntry, AllocationState, free, taken, OpenFileEntry, TfsParams, bytes, entries,
  is_free,
}
use so_project.Tfs.State.{is_none, is_entry_of, free_all}
use so_project.LinkFs.Types.{
  Inode, Volume, V, max_dir_entries, lock, unlock, set_files_lock, set_entry_lock,
}
use so_project.LinkFs.State.{
  valid_inumber, valid_file_handle, data_block_get, dir_entries, is_directory,
}

-- The loop over a directory's entries: `m` on the first that passes the test.
unfoldable pub search_dir :
    {A : Type 0} → ℕ → (DirEntry → Bool) → A → (ℕ → (ℕ → DirEntry) → ℕ → V A) → V A
search_dir block test missing found = do
  content ← reads (λ s. s.fs_data block)
  dir_entry ← dir_entries content
  n ← reads max_dir_entries
  on_index (first_index (λ i. test (dir_entry i)) n 0) (pure missing) (λ i. found block dir_entry i)

abbrev set_entry : ℕ → (ℕ → DirEntry) → ℕ → DirEntry → V Bool
set_entry block dir_entry i e = do
  modify (λ s. record s { fs_data = update s.fs_data block (entries (update dir_entry i e)) })
  pure true

unfoldable pub clear_dir_entry : ℕ → Name → V Bool
clear_dir_entry inode sub_name = do
  dir ← reads (λ s. s.inode_table inode)
  branch (is_directory dir.i_node_type)
      (do
        block ← data_block_get dir.i_data_block
        on_index block abort (λ block.
            search_dir block (λ e. str_eq e.d_name sub_name) false
              (λ block dir_entry i.
                set_entry block dir_entry i (record { d_name = []; d_inumber = none }))))
      (pure false)

unfoldable pub add_dir_entry : ℕ → Name → ℕ → V Bool
add_dir_entry inode sub_name sub_inumber =
    branch (length sub_name == 0 || ltb (max_file_name - 1) (length sub_name)) (pure false) (do
      dir ← reads (λ s. s.inode_table inode)
      branch (is_directory dir.i_node_type)
          (do
            block ← data_block_get dir.i_data_block
            on_index block abort (λ block.
                search_dir block (λ e. is_none e.d_inumber) false
                  (λ block dir_entry i. set_entry block dir_entry i (record {
                    d_name = take (max_file_name - 1) sub_name;
                    d_inumber = some sub_inumber;
                  }))))
          (pure false))

unfoldable pub find_in_dir : ℕ → Name → V (Option ℕ)
find_in_dir inode sub_name = do
  dir ← reads (λ s. s.inode_table inode)
  branch (is_directory dir.i_node_type)
      (do
        block ← data_block_get dir.i_data_block
        on_index block (pure none) (λ block.
            search_dir block (is_entry_of sub_name) none
              (λ block dir_entry i. pure (dir_entry i).d_inumber)))
      (pure none)

-- The free entry `i` is filled under its own mutex.
unfoldable pub fill_entry : ℕ → ℕ → ℕ → V (Option ℕ)
fill_entry inumber offset i = do
  modify (λ s. record s { free_open_file_entries = update s.free_open_file_entries i taken })
  lock (λ s. s.entry_lock i) (set_entry_lock i)
  modify (λ s. record s {
    open_file_table =
        update s.open_file_table i (record { of_inumber = inumber; of_offset = offset });
  })
  unlock (set_entry_lock i)
  unlock set_files_lock
  pure (some i)

unfoldable pub add_to_open_file_table : ℕ → ℕ → V (Option ℕ)
add_to_open_file_table inumber offset = do
  lock (λ s. s.open_file_table_rwl) set_files_lock
  found ← reads (λ s.
      first_index (λ i. is_free (s.free_open_file_entries i)) s.fs_params.max_open_files_count 0)
  on_index found (do unlock set_files_lock; pure none) (fill_entry inumber offset)

unfoldable pub remove_from_open_file_table : ℕ → V Bool
remove_from_open_file_table fhandle = do
  valid ← reads (valid_file_handle (some fhandle))
  branch valid
      (do
        lock (λ s. s.open_file_table_rwl) set_files_lock
        state ← reads (λ s. s.free_open_file_entries fhandle)
        branch (is_free state) (do unlock set_files_lock; pure false)
            (do
              modify (λ s. record s {
                free_open_file_entries = update s.free_open_file_entries fhandle free;
              })
              unlock set_files_lock
              pure true))
      (pure false)

unfoldable pub get_open_file_entry : Option ℕ → V (Option ℕ)
get_open_file_entry fhandle = do
  valid ← reads (valid_file_handle fhandle)
  branch valid
      (on_index fhandle (pure none) (λ h. do
        state ← reads (λ s. s.free_open_file_entries h)
        branch (is_free state) (pure none) (pure (some h))))
      (pure none)

-- The test of the loop of `is_in_open_file_table`.
abbrev pub is_open_on : ℕ → Volume → ℕ → Bool
is_open_on inumber s i =
    not (is_free (s.free_open_file_entries i)) && (s.open_file_table i).of_inumber == inumber

unfoldable pub is_in_open_file_table : ℕ → V Bool
is_in_open_file_table inumber = do
  valid ← reads (valid_inumber inumber)
  branch valid
      (do
        lock (λ s. s.open_file_table_rwl) set_files_lock
        found ← reads (λ s. first_index (is_open_on inumber s) s.fs_params.max_open_files_count 0)
        unlock set_files_lock
        pure (not (is_none found)))
      (pure false)

-- What the seven calls of `malloc` return; `none` for a null pointer. `inode_rwl` is not tested.
pub record Malloc : Type 0 where
  pub inodes : Option (ℕ → Inode)
  pub inode_locks : Option (ℕ → Bool)
  pub inode_states : Option (ℕ → AllocationState)
  pub blocks : Option (ℕ → ℕ → ℕ)
  pub block_states : Option (ℕ → AllocationState)
  pub open_files : Option (ℕ → OpenFileEntry)
  pub entry_locks : ℕ → Bool
  pub open_states : Option (ℕ → AllocationState)

-- The sizes that `malloc` is asked for do not wrap: a lock of an inode and an open file have 56
-- bytes. The loops that make the locks count in an `int`.
abbrev pub sizes_fit : TfsParams → Bool
sizes_fit p =
    ltb p.max_inode_count (2 ^ 31)
    && ltb (p.max_block_count * p.block_size) size_max
    && ltb p.max_open_files_count (2 ^ 31)

-- The state before the first `state_init`, one that failed, or a volume. `crashed` is a null
-- pointer that is followed, a write past a table that is too short, or an `int` that overflows.
pub data Memory : Type 0 where
  uninitialized crashed : Memory
  allocation_failed : TfsParams → Malloc → Memory
  initialized : Volume → Memory

abbrev pub init_locks : ℕ → (ℕ → Bool) → ℕ → Bool
init_locks n locks i = if ltb i n then false else locks i

abbrev pub volume :
    TfsParams
    → Malloc
    → (ℕ → Inode)
    → (ℕ → AllocationState)
    → (ℕ → ℕ → ℕ)
    → (ℕ → AllocationState)
    → (ℕ → OpenFileEntry)
    → (ℕ → AllocationState)
    → Bool × Memory
volume p m i fi b fb o fo = elim m.inode_locks [
  | none ↦ (false, crashed)
  | some locks ↦ (
    true,
    initialized (record {
      fs_params = p;
      inode_table = i;
      inode_rwl = init_locks p.max_inode_count locks;
      freeinode_ts = free_all p.max_inode_count fi;
      inode_table_rwl = false;
      fs_data = λ k. bytes (b k);
      free_blocks = free_all p.max_block_count fb;
      free_blocks_rwl = false;
      open_file_table = o;
      entry_lock = init_locks p.max_open_files_count m.entry_locks;
      free_open_file_entries = free_all p.max_open_files_count fo;
      open_file_table_rwl = false;
    }),
  )
]

-- What is left of `state_init` once the six tables are there.
abbrev pub made :
    TfsParams
    → Malloc
    → (ℕ → Inode)
    → (ℕ → AllocationState)
    → (ℕ → ℕ → ℕ)
    → (ℕ → AllocationState)
    → (ℕ → OpenFileEntry)
    → (ℕ → AllocationState)
    → Bool × Memory
made p m i fi b fb o fo = if sizes_fit p then volume p m i fi b fb o fo else (false, crashed)

abbrev pub allocate : TfsParams → Malloc → Bool × Memory
allocate p m =
    let failed : Bool × Memory = (false, allocation_failed p m) in
    elim m.inodes [
      | none ↦ failed
      | some i ↦ elim m.inode_states [
        | none ↦ failed
        | some fi ↦ elim m.blocks [
          | none ↦ failed
          | some b ↦ elim m.block_states [
            | none ↦ failed
            | some fb ↦ elim m.open_files [
              | none ↦ failed
              | some o ↦ elim m.open_states [ none ↦ failed | some fo ↦ made p m i fi b fb o fo ]
            ]
          ]
        ]
      ]
    ]

-- `fs_params` is assigned before the test for an earlier initialization.
unfoldable pub state_init : TfsParams → Malloc → Memory → Bool × Memory
state_init p m (initialized s) = (false, initialized (record s { fs_params = p }))
state_init p m crashed = (false, crashed)
state_init p m (allocation_failed q n) = elim n.inodes [
  | some i ↦ (false, allocation_failed p n)
  | none ↦ allocate p m
]
state_init p m uninitialized = allocate p m

-- The locks are destroyed and the tables freed; after a failed allocation there are locks that were
-- never made.
unfoldable pub state_destroy : Memory → Bool × Memory
state_destroy (allocation_failed p m) = (false, crashed)
state_destroy crashed = (false, crashed)
state_destroy (initialized s) = (true, uninitialized)
state_destroy uninitialized = (true, uninitialized)
