-- ===== src/LinkFs/Calls.antt =====
-- The locks of fs/state.c, and its directory operations on the root directory.
use so_project.Base.{
  ℕ, ◌-◌, ◌≤◌, ◌<◌, ◌≡◌, refl, sym, ap, ◌∙◌, fun_ext, ◌≢◌, ◌⊎◌, inl, inr, Bool, true, false, not,
  ◌||◌, Option, none, some, update, first_index, first_index-Found, ltb, ◌==◌, lt→ltb, Bool-cases,
  if◌then◌else◌, Name, length, take_all, str_eq, str_eq→eq, eq→str_eq, arith,
}
use mathlib.Core.Bool.{false≢true}
use so_project.Tfs.Types.{max_file_name, DirEntry, entries}
use so_project.Base.Monad.{
  pure, ◌>>=◌, ◌>>◌, reads, modify, abort, branch, on_index, Ends, ends, Ends-done, >>-eq,
}
use so_project.Tfs.State.{is_none}
use so_project.Tfs.Operations.{valid_pathname, base_name}
use so_project.Tfs.Valid.{Names}
use so_project.Tfs.Directory.{find_name, IsEntry}
use so_project.Tfs.DirUpdate.{used, blank}
use so_project.Tfs.DirCalls.{is_none→eq, not_is_none→eq, misfit-cases, same_entry}
use so_project.LinkFs.Types.{Volume, max_dir_entries, lock, unlock, set_inode_lock}
use so_project.LinkFs.State.{data_block_get, dir_entries, inode_get}
use so_project.LinkFs.Tables.{
  search_dir, add_dir_entry, clear_dir_entry, find_in_dir, is_in_open_file_table, is_open_on,
}
use so_project.LinkFs.Operations.{tfs_lookup, lock_inode, unlock_inode, unlock_return, root_dir}
use so_project.LinkFs.Valid.{Root}

-- A lock that was free is free again.
pub relock : (f : ℕ → Bool) (i : ℕ) → f i ≡ false → update (update f i true) i false ≡ f
relock f i h = fun_ext λ j. ground arith

abbrev pub locked : ℕ → Volume → Volume
locked i s = set_inode_lock i true s

pub unlock-locked :
    (i : ℕ) (s : Volume) → s.inode_rwl i ≡ false → set_inode_lock i false (locked i s) ≡ s
unlock-locked i s h = ap (λ l. record s { inode_rwl = l }) (relock s.inode_rwl i h)

pub lock-eq :
    (held : Volume → Bool) (set : Bool → Volume → Volume) (s : Volume)
    → held s ≡ false
    → lock held set s ≡ some (tt, set true s)
unfolding lock ◌>>=◌ reads branch modify
lock-eq held set s h = rw h

pub lock_inode-eq :
    (i : ℕ) (s : Volume) → s.inode_rwl i ≡ false → lock_inode i s ≡ some (tt, locked i s)
lock_inode-eq i s h = lock-eq (λ t. t.inode_rwl i) (set_inode_lock i) s h

pub unlock_return-eq :
    {A : Type 0} (i : ℕ) (a : A) (s : Volume)
    → unlock_return i a s ≡ some (a, set_inode_lock i false s)
unfolding unlock_return unlock ◌>>◌ ◌>>=◌ modify pure
unlock_return-eq i a s = refl

pub unlock_inode-eq : (i : ℕ) (s : Volume) → unlock_inode i s ≡ some (tt, set_inode_lock i false s)
unfolding unlock modify
unlock_inode-eq i s = refl

pub inode_get-eq :
    (i : ℕ) (s : Volume) → i < s.fs_params.max_inode_count → inode_get i s ≡ some (some i, s)
unfolding inode_get ◌>>=◌ reads pure
inode_get-eq i s lt = rw (lt→ltb _ _ lt)

pub unlock_both-eq :
    {A : Type 0} (i : ℕ) (r : A) (t : Volume)
    → (do unlock_inode i; unlock_return 0 r) t
      ≡ some (r, set_inode_lock 0 false (set_inode_lock i false t))
unlock_both-eq i r t = >>-eq _ _ t (unlock_inode-eq i t) ∙ unlock_return-eq 0 r _

-- The volume with other entries in the root directory.
abbrev pub with_entries : ℕ → (ℕ → DirEntry) → Volume → Volume
with_entries b e s = record s { fs_data = update s.fs_data b (entries e) }

pub data_block_get-eq :
    (d : ℕ) (s : Volume)
    → d < s.fs_params.max_block_count
    → data_block_get (some d) s ≡ some (some d, s)
unfolding data_block_get ◌>>=◌ reads pure
data_block_get-eq d s h = rw (lt→ltb _ _ h)

-- The loop of `clear_dir_entry` stops at the entry of that name.
named_at :
    {n : ℕ} {e : ℕ → DirEntry} (d : Names n e) (name : Name) (i k : ℕ)
    → 0 < length name
    → IsEntry e n name i k
    → first_index (λ j. str_eq (e j).d_name name) n 0 ≡ some k
named_at {n} {e} d name i k long h = elim (first_index-Found (λ j. str_eq (e j).d_name name) n) [
  | inl (q, all) ↦ absurd (false≢true (sym (all k h.0) ∙ eq→str_eq _ _ h.2))
  | inr (j, q, lt, t, least) ↦ q ∙ ap some (same_entry name i k j d long h lt (str_eq→eq _ _ t))
]

-- What `add_dir_entry` does on the root directory `e` in block `b`, of `n` entries: a name that
-- does not fit an entry, or a full directory, is refused; else the first free entry is filled.
pub data Adds (b n : ℕ) (e : ℕ → DirEntry) (name : Name) (i : ℕ) (s : Volume) (r : Bool)
    (s' : Volume) : Type 0 where
  misfit :
      r ≡ false
      → s' ≡ s
      → (length name ≡ 0) ⊎ (max_file_name ≤ length name)
      → Adds b n e name i s r s'
  crowded :
      r ≡ false → s' ≡ s → ((k : ℕ) → k < n → (e k).d_inumber ≢ none) → Adds b n e name i s r s'
  adds :
      (j : ℕ)
      → r ≡ true
      → s' ≡ with_entries b (update e j (used name i)) s
      → j < n
      → (e j).d_inumber ≡ none
      → 0 < length name
      → length name < max_file_name
      → Adds b n e name i s r s'

module _ {b : ℕ} {e : ℕ → DirEntry} {s : Volume} (r : Root b e s) where
  pub root_dir-eq : root_dir s ≡ some (0, s)
  unfolding root_dir inode_get ◌>>=◌ reads pure on_index
  root_dir-eq = ground (arith, r.root_in)

  -- `tfs_lookup` computes the abstract lookup and changes nothing.
  pub tfs_lookup-eq :
      (name : Option Name)
      → tfs_lookup name 0 s
        ≡ some (
          if valid_pathname name then find_name e (max_dir_entries s) (base_name name) else none,
          s,
        )
  unfolding tfs_lookup find_in_dir search_dir find_name ◌>>=◌ ◌>>◌ reads branch pure on_index
      dir_entries
  tfs_lookup-eq name =
      ground (arith, data_block_get-eq b s r.block_in, r.root_type, r.root_block, r.block_entries)

  pub add_dir_entry-Adds :
      (name : Name) (i : ℕ)
      → Ends (Adds b (max_dir_entries s) e name i s) (add_dir_entry 0 name i s)
  unfolding add_dir_entry search_dir ◌>>=◌ ◌>>◌ reads branch pure on_index dir_entries modify
  add_dir_entry-Adds name i =
      elim (Bool-cases (length name == 0 || ltb (max_file_name - 1) (length name))) [
        | inl bad ↦ rw bad (ends false s (misfit refl refl (misfit-cases _ bad)))
        | inr good ↦ elim (first_index-Found (λ k. is_none (e k).d_inumber) (max_dir_entries s)) [
          | inl (q, all) ↦
              Ends-done
                (ground (
                  arith,
                  data_block_get-eq b s r.block_in,
                  r.root_type,
                  r.root_block,
                  r.block_entries,
                ))
                (crowded refl refl (λ k lt. not_is_none→eq _ (all k lt)))
          | inr (j, q, lt, t, m) ↦
              Ends-done {a = true} {t = with_entries b (update e j (used name i)) s}
                (ground (
                  arith,
                  data_block_get-eq b s r.block_in,
                  r.root_type,
                  r.root_block,
                  r.block_entries,
                  take_all (max_file_name - 1) name,
                ))
                (adds j refl refl lt (is_none→eq _ t) (ground arith) (ground arith))
        ]
      ]

  -- `clear_dir_entry` frees the entry of that name, which the directory holds once.
  pub clear_dir_entry-eq :
      (name : Name) (i k : ℕ)
      → Names (max_dir_entries s) e
      → 0 < length name
      → IsEntry e (max_dir_entries s) name i k
      → clear_dir_entry 0 name s ≡ some (true, with_entries b (update e k blank) s)
  unfolding clear_dir_entry search_dir ◌>>=◌ ◌>>◌ reads branch pure on_index dir_entries modify
  clear_dir_entry-eq name i k d long h =
      let at_k = named_at d name i k long h in
      ground (arith, data_block_get-eq b s r.block_in, r.root_type, r.root_block, r.block_entries)

-- Two locks that were free are free again.
pub relock_both :
    (f : ℕ → Bool) (i j : ℕ)
    → f i ≡ false
    → f j ≡ false
    → update (update (update (update f i true) j true) j false) i false ≡ f
relock_both f i j hi hj = fun_ext λ k. ground arith

-- Whether some open file is the inode `i`.
abbrev pub is_open : ℕ → Volume → Bool
is_open i s = not (is_none (first_index (is_open_on i s) s.fs_params.max_open_files_count 0))

pub is_in_open_file_table-eq :
    (i : ℕ) (s : Volume)
    → i < s.fs_params.max_inode_count
    → s.open_file_table_rwl ≡ false
    → is_in_open_file_table i s ≡ some (is_open i s, s)
unfolding is_in_open_file_table lock unlock ◌>>=◌ ◌>>◌ reads branch modify pure abort
is_in_open_file_table-eq i s lt h = ground (
  arith,
  ap {B = Option (Bool × Volume)} (λ x. some (is_open i s, record s { open_file_table_rwl = x }))
      (sym h),
)
