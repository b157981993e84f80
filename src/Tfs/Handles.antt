-- ===== src/Tfs/Handles.antt =====
-- fs2/operations.c `tfs_close`, and what opening a file does to the table of open files.
use so_project.Base.{
  ℕ, ◌≤◌, ◌<◌, ◌≡◌, refl, sym, ap, ◌≢◌, ◌⊎◌, inl, inr, Bool, true, false, Option, none, some,
  update, update_ind, ltb, ltb→lt, lt→ltb, Bool-cases, arith,
}
use so_project.Tfs.Types.{
  DirEntry, Inode, AllocationState, free, taken, OpenFileEntry, TfsParams, Fs,
}
use so_project.Base.Monad.{
  pure, ◌>>=◌, ◌>>◌, reads, modify, abort, branch, always_assert, on_index, Ends, ends, Ends->>=,
  Ends-then, Ends-done,
}
use so_project.Tfs.State.{remove_from_open_file_table, get_open_file_entry}
use so_project.Tfs.Valid.{FileOk, Handles, Inv, IsValid}
use so_project.Tfs.Operations.{mutex_lock, mutex_unlock, unlock_return, tfs_close}

pub state_cases : (a : AllocationState) → (a ≡ free) ⊎ (a ≡ taken)
state_cases free = inl refl
state_cases taken = inr refl

module _ {b : ℕ} {p : TfsParams} {inodes : ℕ → Inode} {files : ℕ → OpenFileEntry}
    {states : ℕ → AllocationState} (v : Handles b p inodes files states) where
  Handles-close : (h : ℕ) → Handles b p inodes files (update states h free)
  Handles-close h = record {
    inode_in = λ k t. ground (arith, v.inode_in k);
    not_root = λ k t. ground (arith, v.not_root k);
    offset_le = λ k t. ground (arith, v.offset_le k);
    opened_ok = λ k t. v.opened_ok k (ground arith);
  }

  -- A new open file, or a new offset of one.
  pub Handles-set :
      (h : ℕ) (f : OpenFileEntry)
      → f.of_inumber < p.max_inode_count
      → f.of_inumber ≢ 0
      → f.of_offset ≤ p.block_size
      → FileOk b p (inodes f.of_inumber)
      → Handles b p inodes (update files h f) (update states h taken)
  Handles-set h f i z o ok = record {
    inode_in = λ k t. ground (arith, v.inode_in k);
    not_root = λ k t. ground (arith, v.not_root k);
    offset_le = λ k t. ground (arith, v.offset_le k);
    opened_ok = λ k t.
        update_ind (λ g. FileOk b p (inodes g.of_inumber)) files h f k (λ _. ok)
          (λ ne. v.opened_ok k (ground arith));
  }

  pub Handles-inode :
      (i : ℕ) (n : Inode) → FileOk b p n → Handles b p (update inodes i n) files states
  Handles-inode i n ok = record {
    inode_in = v.inode_in;
    not_root = v.not_root;
    offset_le = v.offset_le;
    opened_ok = λ k t.
        update_ind (FileOk b p) inodes i n (files k).of_inumber (λ _. ok) (λ _. v.opened_ok k t);
  }

pub mutex_lock-eq :
    (s : Fs)
    → s.g_library_mutex ≡ false
    → mutex_lock s ≡ some (tt, record s { g_library_mutex = true })
unfolding mutex_lock ◌>>=◌ reads branch abort modify
mutex_lock-eq s h = rw h

pub unlock_return-eq :
    {A : Type 0} (a : A) (s : Fs)
    → unlock_return a s ≡ some (a, record s { g_library_mutex = false })
unfolding unlock_return mutex_unlock ◌>>=◌ ◌>>◌ modify pure
unlock_return-eq a s = refl

-- Handle `h` is not in use.
abbrev pub IsClosed : Option ℕ → Fs → Type 0
IsClosed h s =
    (k : ℕ) → h ≡ some k → k < s.fs_params.max_open_files_count → s.free_open_file_entries k ≡ free

pub data Lookup (h : Option ℕ) (s : Fs) (r : Option ℕ) (s' : Fs) : Type 0 where
  closed : r ≡ none → s' ≡ s → IsClosed h s → Lookup h s r s'
  opened :
      (k : ℕ)
      → h ≡ some k
      → r ≡ some k
      → s' ≡ s
      → k < s.fs_params.max_open_files_count
      → s.free_open_file_entries k ≡ taken
      → Lookup h s r s'

pub get_open_file_entry-Lookup :
    (h : Option ℕ) (s : Fs) → Ends (Lookup h s) (get_open_file_entry h s)
unfolding get_open_file_entry ◌>>=◌ reads branch pure on_index
get_open_file_entry-Lookup none s = ends none s (closed refl refl (λ k e lt. cc))
get_open_file_entry-Lookup (some k) s = elim (Bool-cases (ltb k s.fs_params.max_open_files_count)) [
  | inr out ↦ rw out (ends none s (closed refl refl (λ j e lt. ground arith)))
  | inl inside ↦ rw inside (elim (state_cases (s.free_open_file_entries k)) [
    | inl e ↦ rw e (ends none s (closed refl refl (λ j q lt. cc)))
    | inr e ↦ rw e (ends (some k) s (opened k refl refl refl (ltb→lt _ _ inside) e))
  ])
]

-- Taking the mutex and letting it go gives back a state whose mutex was free.
pub relock : (s : Fs) → s.g_library_mutex ≡ false → record s { g_library_mutex = false } ≡ s
relock s h = ap (λ m. record s { g_library_mutex = m }) (sym h)

remove-eq :
    (k : ℕ) (s : Fs)
    → k < s.fs_params.max_open_files_count
    → s.free_open_file_entries k ≡ taken
    → remove_from_open_file_table k s
      ≡ some (tt, record s { free_open_file_entries = update s.free_open_file_entries k free })
unfolding remove_from_open_file_table ◌>>=◌ ◌>>◌ reads always_assert branch pure modify
remove-eq k s lt t = rw (lt→ltb _ _ lt, t)

-- What `tfs_close` does: an unknown handle is refused and nothing changes; an open one is closed.
pub data Closes (h : Option ℕ) (s : Fs) (r : Bool) (s' : Fs) : Type 0 where
  refused : r ≡ false → s' ≡ s → IsClosed h s → Closes h s r s'
  closes :
      (k : ℕ)
      → h ≡ some k
      → r ≡ true
      → s.free_open_file_entries k ≡ taken
      → s' ≡ record s { free_open_file_entries = update s.free_open_file_entries k free }
      → Closes h s r s'

Inv-close :
    {b : ℕ} {e : ℕ → DirEntry} {s : Fs} (k : ℕ)
    → Inv b e s
    → Inv b e (record s { free_open_file_entries = update s.free_open_file_entries k free })
Inv-close k v = record {
  root = v.root;
  directory = v.directory;
  storage = v.storage;
  handles = Handles-close v.handles k;
}

pub Closes-IsValid :
    {b : ℕ} {e : ℕ → DirEntry} (h : Option ℕ) (s : Fs) (r : Bool) (s' : Fs)
    → IsValid b e s
    → Closes h s r s'
    → IsValid b e s'
Closes-IsValid h s r s' v (refused er es shut) = rw es v
Closes-IsValid h s r s' v (closes k eh er t es) =
    rw es (record { inv = Inv-close k v.inv; unlocked = v.unlocked })

-- From a state whose mutex is free, `tfs_close` returns. It refuses a handle that is not open and
-- changes nothing, or it frees the handle's entry and changes nothing else. The mutex is free again.
pub tfs_close-Closes :
    (h : Option ℕ) (s : Fs) → s.g_library_mutex ≡ false → Ends (Closes h s) (tfs_close h s)
unfolding tfs_close on_index
tfs_close-Closes h s u = Ends-then _ _ s (mutex_lock-eq s u) (
    Ends->>= _ _ _ (get_open_file_entry-Lookup h _) λ r s' found. elim found [
      | closed er es shut ↦
          rw (er, es) (Ends-done (unlock_return-eq false _) (refused refl (relock s u) shut))
      | opened k eh er es lt t ↦
          rw (er, es)
            (Ends-then _ _ _ (remove-eq k _ lt t) (
              Ends-done (unlock_return-eq true _) (
                closes k eh refl t (
                  ap
                    (λ m. record s {
                      free_open_file_entries = update s.free_open_file_entries k free;
                      g_library_mutex = m;
                    })
                    (sym u)))))
    ])
