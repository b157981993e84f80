-- ===== src/Tfs/DirCalls.antt =====
-- `find_in_dir`, `add_dir_entry` and `clear_dir_entry` of fs2/state.c on the root directory.
use so_project.Base.{
  ℕ, ◌-◌, ◌≤◌, ◌<◌, ◌≡◌, refl, sym, ap, ◌∙◌, ◌≢◌, ◌⊎◌, inl, inr, Bool, true, false, ◌||◌, Option,
  none, some, update, first_index, first_index-Found, ltb, ◌==◌, lt→ltb, Bool-cases, Option-cases,
  ==→eq, Name, length, take_all, str_eq, str_eq→eq, eq→str_eq, arith,
}
use mathlib.Core.Bool.{false≢true}
use so_project.Tfs.Types.{max_file_name, DirEntry, entries, Fs, max_dir_entries}
use so_project.Tfs.Types.{M}
use so_project.Base.Monad.{
  pure, ◌>>=◌, ◌>>◌, reads, modify, branch, always_assert, on_index, Ends, ends, Ends-done,
}
use so_project.Tfs.State.{
  is_none, data_block_get, dir_entries, find_in_dir, add_dir_entry, clear_dir_entry,
}
use so_project.Tfs.Valid.{Root, Names}
use so_project.Tfs.Directory.{find_name, IsEntry}
use so_project.Tfs.DirUpdate.{used, blank}

-- The state with other entries in the root directory.
abbrev pub with_entries : ℕ → (ℕ → DirEntry) → Fs → Fs
with_entries b e s = record s { fs_data = update s.fs_data b (entries e) }

pub data_block_get-eq :
    (d : ℕ) (s : Fs) → d < s.fs_params.max_block_count → data_block_get (some d) s ≡ some (d, s)
unfolding data_block_get ◌>>=◌ ◌>>◌ reads always_assert branch pure on_index
data_block_get-eq d s h = rw (lt→ltb _ _ h)

pub is_none→eq : (o : Option ℕ) → is_none o ≡ true → o ≡ none
is_none→eq none h = refl
is_none→eq (some i) h = cc

pub not_is_none→eq : (o : Option ℕ) → is_none o ≡ false → o ≢ none
not_is_none→eq none h q = cc
not_is_none→eq (some i) h q = cc

pub misfit-cases :
    (n : ℕ) → (n == 0 || ltb (max_file_name - 1) n) ≡ true → (n ≡ 0) ⊎ (max_file_name ≤ n)
misfit-cases n h = elim (Bool-cases (n == 0)) [
  | inl z ↦ inl (==→eq n 0 z)
  | inr nz ↦ inr (ground arith)
]

-- Only one entry bears the name of an entry in use.
pub same_entry :
    {n : ℕ} {e : ℕ → DirEntry} (name : Name) (i k j : ℕ)
    → Names n e
    → 0 < length name
    → IsEntry e n name i k
    → j < n
    → (e j).d_name ≡ name
    → j ≡ k
same_entry {e} name i k j d long h lt q = elim (Option-cases (e j).d_inumber) [
  | inl unused ↦ absurd (omega (arith, ap length (sym q ∙ d.blank j lt unused)))
  | inr (x, in_use) ↦ d.same_name j k x i lt h.0 in_use h.1 (q ∙ sym h.2)
]

-- What `add_dir_entry` does on the root directory `e` in block `b`, of `n` entries: a name that
-- does not fit an entry, or a full directory, is refused; else the first free entry is filled.
pub data Adds (b n : ℕ) (e : ℕ → DirEntry) (name : Name) (i : ℕ) (s : Fs) (r : Bool) (s' : Fs)
    : Type 0 where
  misfit :
      r ≡ false
      → s' ≡ s
      → (length name ≡ 0) ⊎ (max_file_name ≤ length name)
      → Adds b n e name i s r s'
  crowded :
      r ≡ false → s' ≡ s → ((k : ℕ) → k < n → (e k).d_inumber ≢ none) → Adds b n e name i s r s'
  adds :
      (j : ℕ)
      → r ≡ true
      → s' ≡ with_entries b (update e j (used name i)) s
      → j < n
      → (e j).d_inumber ≡ none
      → 0 < length name
      → length name < max_file_name
      → Adds b n e name i s r s'

module _ {b : ℕ} {e : ℕ → DirEntry} (s : Fs)
    (r : Root b e s.fs_params s.inode_table s.freeinode_ts s.fs_data s.free_blocks) where
  -- The block of the root directory, read as its entries.
  root_entries : {A : Type 0} (f : ℕ → (ℕ → DirEntry) → ℕ → M A) → M A
  root_entries f = do
    dir ← reads (λ s. s.inode_table 0)
    block ← data_block_get dir.i_data_block
    content ← reads (λ s. s.fs_data block)
    dir_entry ← dir_entries content
    n ← reads max_dir_entries
    f block dir_entry n

  root_entries-eq :
      {A : Type 0} (f : ℕ → (ℕ → DirEntry) → ℕ → M A)
      → root_entries f s ≡ f b e (max_dir_entries s) s
  unfolding root_entries ◌>>=◌ reads pure dir_entries
  root_entries-eq f = ground (arith, data_block_get-eq b s r.block_in)

  -- `find_in_dir` computes the abstract lookup and changes nothing.
  pub find_in_dir-eq :
      (name : Name) → find_in_dir 0 name s ≡ some (find_name e (max_dir_entries s) name, s)
  unfolding find_name find_in_dir ◌>>=◌ ◌>>◌ reads branch pure on_index dir_entries
  find_in_dir-eq name = ground (arith, data_block_get-eq b s r.block_in)

  pub add_dir_entry-Adds :
      (name : Name) (i : ℕ)
      → Ends (Adds b (max_dir_entries s) e name i s) (add_dir_entry 0 name i s)
  unfolding add_dir_entry ◌>>=◌ ◌>>◌ reads branch pure on_index dir_entries modify
  add_dir_entry-Adds name i =
      elim (Bool-cases (length name == 0 || ltb (max_file_name - 1) (length name))) [
        | inl bad ↦ rw bad (ends false s (misfit refl refl (misfit-cases _ bad)))
        | inr good ↦ elim (first_index-Found (λ k. is_none (e k).d_inumber) (max_dir_entries s)) [
          | inl (q, all) ↦
              Ends-done (ground (arith, data_block_get-eq b s r.block_in))
                (crowded refl refl (λ k lt. not_is_none→eq _ (all k lt)))
          | inr (j, q, lt, t, m) ↦
              Ends-done {a = true} {t = with_entries b (update e j (used name i)) s}
                (ground
                  (arith, data_block_get-eq b s r.block_in, take_all (max_file_name - 1) name))
                (adds j refl refl lt (is_none→eq _ t) (ground arith) (ground arith))
        ]
      ]

  -- `clear_dir_entry` frees the entry of that name, which the directory holds once.
  pub clear_dir_entry-eq :
      (name : Name) (i k : ℕ)
      → Names (max_dir_entries s) e
      → 0 < length name
      → IsEntry e (max_dir_entries s) name i k
      → clear_dir_entry 0 name s ≡ some (true, with_entries b (update e k blank) s)
  unfolding clear_dir_entry ◌>>=◌ ◌>>◌ reads branch pure on_index dir_entries modify
  clear_dir_entry-eq name i k d long h = ground (arith, data_block_get-eq b s r.block_in, at_k)
    where
      at_k : first_index (λ j. str_eq (e j).d_name name) (max_dir_entries s) 0 ≡ some k
      at_k = elim (first_index-Found (λ j. str_eq (e j).d_name name) (max_dir_entries s)) [
        | inl (q, all) ↦ absurd (false≢true (sym (all k h.0) ∙ eq→str_eq _ _ h.2))
        | inr (j, q, lt, t, least) ↦
            q ∙ ap some (same_entry name i k j d long h lt (str_eq→eq _ _ t))
      ]
