-- ===== src/Tfs/Steps.antt =====
-- The steps that the calls of fs2/operations.c are made of, as equations.
use so_project.Base.{
  ℕ, ◌<◌, ◌≡◌, refl, ap, ◌≢◌, ◌⊎◌, inl, inr, fun_ext, Bool, true, false, Option, none, some, update,
  ltb, ltb→lt, lt→ltb, Bool-cases, if◌then◌else◌, Name, [], ◌∷◌, length, arith,
}
use so_project.Tfs.Types.{
  DirEntry, Inode, t_file, AllocationState, free, taken, Fs, max_dir_entries,
}
use so_project.Base.Monad.{
  pure, ◌>>=◌, ◌>>◌, reads, modify, branch, always_assert, on_index, Ends, ends, Ends->>=,
  Ends-done,
}
use so_project.Tfs.State.{
  inode_create, create_file, set_inode, data_block_free, inode_delete, inode_get,
}
use so_project.Tfs.Alloc.{full, took, inode_alloc-Takes, add_to_open_file_table-Takes}
use so_project.Tfs.Operations.{
  has_flag, tfs_o_trunc, tfs_o_append, valid_pathname, base_name, tfs_lookup, open_existing,
  open_entry,
}
use so_project.Tfs.Valid.{FileOk, Root}
use so_project.Tfs.Handles.{unlock_return-eq}
use so_project.Tfs.Directory.{find_name}
use so_project.Tfs.DirCalls.{find_in_dir-eq}

abbrev pub lock : Fs → Fs
lock s = record s { g_library_mutex = true }

abbrev pub unlock : Fs → Fs
unlock s = record s { g_library_mutex = false }

-- The state with an entry for a file at `offset` in the table of open files.
abbrev pub with_file : ℕ → ℕ → ℕ → Fs → Fs
with_file h inumber offset s = record s {
  free_open_file_entries = update s.free_open_file_entries h taken;
  open_file_table =
      update s.open_file_table h (record { of_inumber = inumber; of_offset = offset });
}

-- The last step: the first free handle is taken, or all are in use.
abbrev pub Enters : ℕ → ℕ → Fs → Option ℕ → Fs → Type 0
Enters i offset t r s' =
    ((r ≡ none)
      × (s' ≡ unlock t)
      × ((h : ℕ) → h < t.fs_params.max_open_files_count → t.free_open_file_entries h ≡ taken))
    ⊎ ((h : ℕ) × (r ≡ some h)
        × (s' ≡ unlock (with_file h i offset t))
        × (h < t.fs_params.max_open_files_count)
        × (t.free_open_file_entries h ≡ free))

pub open_entry-Enters : (i offset : ℕ) (t : Fs) → Ends (Enters i offset t) (open_entry i offset t)
unfolding open_entry
open_entry-Enters i offset t = Ends->>= _ _ t (add_to_open_file_table-Takes i offset t) λ r s' tk.
    elim tk [
      | full er es all ↦ rw (er, es) (Ends-done (unlock_return-eq none t) (inl (refl, refl, all)))
      | took h er es lt fr m ↦
          rw (er, es)
            (Ends-done (unlock_return-eq (some h) (with_file h i offset t))
              (inr (h, refl, refl, lt, fr)))
    ]

-- A truncated file has size 0, and its block is free; an empty file stays as it is.
abbrev pub truncate_block : ℕ → Option ℕ → Fs → Fs
truncate_block i none s = s
truncate_block i (some d) s = record s {
  free_blocks = update s.free_blocks d free;
  inode_table = update s.inode_table i (record (s.inode_table i) { i_size = 0 });
}

abbrev pub truncate : ℕ → Fs → Fs
truncate i s =
    if ltb 0 (s.inode_table i).i_size then truncate_block i (s.inode_table i).i_data_block s else s

abbrev pub truncate_if : Bool → ℕ → Fs → Fs
truncate_if b i s = if b then truncate i s else s

pub truncate_if-frame :
    (c : Bool) (i : ℕ) (s : Fs)
    → ((truncate_if c i s).fs_params ≡ s.fs_params)
      × ((truncate_if c i s).freeinode_ts ≡ s.freeinode_ts)
truncate_if-frame c i s = ground arith

abbrev pub start_offset : ℕ → ℕ → Fs → ℕ
start_offset mode i s = if has_flag mode tfs_o_append then (s.inode_table i).i_size else 0

pub data_block_free-eq :
    (d : ℕ) (s : Fs)
    → d < s.fs_params.max_block_count
    → data_block_free (some d) s ≡ some (tt, record s { free_blocks = update s.free_blocks d free })
unfolding data_block_free ◌>>=◌ ◌>>◌ reads always_assert branch pure on_index modify
data_block_free-eq d s h = rw (lt→ltb _ _ h)

pub open_existing-eq :
    (b mode i : ℕ) (s : Fs)
    → FileOk b s.fs_params (s.inode_table i)
    → let t = truncate_if (has_flag mode tfs_o_trunc) i s in
      open_existing mode i s ≡ some (start_offset mode i t, t)
unfolding open_existing ◌>>=◌ ◌>>◌ reads branch pure set_inode modify
open_existing-eq b mode i s ok = elim (Bool-cases (has_flag mode tfs_o_trunc)) [
  | inr no_trunc ↦ rw no_trunc
  | inl trunc ↦ rw trunc (elim (Bool-cases (ltb 0 (s.inode_table i).i_size)) [
    | inr empty ↦ rw empty
    | inl full_file ↦
        let (d, ed, ltd, ne) = ok.block_ok (ltb→lt _ _ full_file) in
        ground (arith, data_block_free-eq d s ltd)
  ])
]

-- A fresh inode for an empty file.
abbrev pub empty_file : Inode
empty_file = record { i_node_type = t_file; i_size = 0; i_data_block = none }

abbrev pub with_inode : ℕ → Fs → Fs
with_inode i s = record s {
  freeinode_ts = update s.freeinode_ts i taken;
  inode_table = update s.inode_table i empty_file;
}

abbrev pub Creates : Fs → Option ℕ → Fs → Type 0
Creates s r s' =
    ((r ≡ none) × (s' ≡ s) × ((j : ℕ) → j < s.fs_params.max_inode_count → s.freeinode_ts j ≡ taken))
    ⊎ ((i : ℕ) × (r ≡ some i)
        × (s' ≡ with_inode i s)
        × (i < s.fs_params.max_inode_count)
        × (s.freeinode_ts i ≡ free))

create_file-eq :
    (i : ℕ) (s : Fs)
    → create_file i (record s { freeinode_ts = update s.freeinode_ts i taken })
      ≡ some (some i, with_inode i s)
unfolding create_file set_inode ◌>>◌ ◌>>=◌ modify pure
create_file-eq i s = refl

pub inode_create-Creates : (s : Fs) → Ends (Creates s) (inode_create t_file s)
unfolding inode_create on_index pure
inode_create-Creates s = Ends->>= _ _ s (inode_alloc-Takes s) λ r s' tk. elim tk [
  | full er es all ↦ rw (er, es) (ends none s (inl (refl, refl, all)))
  | took i er es lt fr m ↦
      rw (er, es) (Ends-done (create_file-eq i s) (inr (i, refl, refl, lt, fr)))
]

-- The inode of an empty file is freed, and no block with it.
pub inode_delete_empty :
    (i : ℕ) (s : Fs)
    → i < s.fs_params.max_inode_count
    → s.freeinode_ts i ≡ taken
    → (s.inode_table i).i_size ≡ 0
    → inode_delete i s ≡ some (tt, record s { freeinode_ts = update s.freeinode_ts i free })
unfolding inode_delete ◌>>=◌ ◌>>◌ reads always_assert branch pure modify
inode_delete_empty i s lt t z = rw (lt→ltb _ _ lt, t, z)

pub Root-other :
    {b : ℕ} {e : ℕ → DirEntry} (s : Fs) (i : ℕ) (n : Inode) (a : AllocationState)
    → Root b e s.fs_params s.inode_table s.freeinode_ts s.fs_data s.free_blocks
    → i ≢ 0
    → Root b e s.fs_params
        (update s.inode_table i n)
        (update s.freeinode_ts i a)
        s.fs_data
        s.free_blocks
Root-other s i n a r h = record {
  small = r.small;
  root_in = r.root_in;
  root_taken = ground (arith, r.root_taken);
  root_type = ground (arith, r.root_type);
  root_block = ground (arith, r.root_block);
  block_in = r.block_in;
  block_taken = r.block_taken;
  block_entries = r.block_entries;
}

-- The state after a failed creation: only the contents of a free inode have changed.
abbrev pub with_free_inode : ℕ → Fs → Fs
with_free_inode i s = record s { inode_table = update s.inode_table i empty_file }

pub undo_taken :
    (i : ℕ) (s : Fs)
    → s.freeinode_ts i ≡ free
    → record (with_inode i s) { freeinode_ts = update (update s.freeinode_ts i taken) i free }
      ≡ with_free_inode i s
undo_taken i s h =
    ap (λ st. record (with_free_inode i s) { freeinode_ts = st }) (fun_ext λ j. ground arith)

pub base-length : (name : Option Name) → valid_pathname name ≡ true → 0 < length (base_name name)
unfolding valid_pathname
base-length none h = cc
base-length (some []) h = cc
base-length (some (c ∷ rest)) h = ground arith

pub tfs_lookup-eq :
    {b : ℕ} {e : ℕ → DirEntry} (s : Fs) (name : Option Name)
    → Root b e s.fs_params s.inode_table s.freeinode_ts s.fs_data s.free_blocks
    → valid_pathname name ≡ true
    → tfs_lookup name 0 s ≡ some (find_name e (max_dir_entries s) (base_name name), s)
unfolding tfs_lookup branch
tfs_lookup-eq s name r h = rw h (find_in_dir-eq s r (base_name name))

pub inode_get-eq : (i : ℕ) (s : Fs) → i < s.fs_params.max_inode_count → inode_get i s ≡ some (i, s)
unfolding inode_get ◌>>=◌ ◌>>◌ reads always_assert branch pure
inode_get-eq i s h = rw (lt→ltb _ _ h)
