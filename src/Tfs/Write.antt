-- ===== src/Tfs/Write.antt =====
-- `tfs_write` of fs2/operations.c: the two steps of a write, and the invariant.
use so_project.Base.{
  ℕ, ◌+◌, ◌≤◌, ◌<◌, ◌≡◌, refl, sym, ◌≢◌, inl, inr, subst, Bool, true, false, Option, some, update,
  update_ind, ltb, ◌==◌, ==→eq, not_==→ne, Bool-cases, if◌then◌else◌, add_size, arith,
}
use so_project.Tfs.Types.{DirEntry, Inode, free, taken, TfsParams, bytes, Fs}
use so_project.Tfs.Types.{M}
use so_project.Base.Monad.{
  pure, ◌>>=◌, ◌>>◌, reads, modify, abort, branch, on_index, Ends, ends, Ends->>=,
}
use so_project.Tfs.State.{set_inode, data_block_alloc}
use so_project.Tfs.Alloc.{full, took, data_block_alloc-Takes}
use so_project.Tfs.Operations.{ensure_block, store_bytes, write_block, copy_in}
use so_project.Tfs.Valid.{FileOk, Inv}
use so_project.Tfs.DirCalls.{data_block_get-eq}

-- Block `d` is in use for file `i`, and for no other.
abbrev pub Owns : Fs → ℕ → ℕ → Type 0
Owns s i d =
    (s.free_blocks d ≡ taken)
    × ((j : ℕ)
        → j ≢ i
        → j ≢ 0
        → s.freeinode_ts j ≡ taken
        → 0 < (s.inode_table j).i_size
        → (s.inode_table j).i_data_block ≢ some d)

-- The file is given the block `d`, just allocated.
abbrev pub with_block : ℕ → ℕ → Fs → Fs
with_block i d s = record s {
  free_blocks = update s.free_blocks d taken;
  inode_table = update s.inode_table i (record (s.inode_table i) { i_data_block = some d });
}

-- Before the bytes are stored: an empty file gets a free block, if there is one; another keeps its
-- own.
pub data Ensures (i : ℕ) (s : Fs) (r : Bool) (s' : Fs) : Type 0 where
  no_space :
      r ≡ false
      → s' ≡ s
      → (s.inode_table i).i_size ≡ 0
      → ((d : ℕ) → d < s.fs_params.max_block_count → s.free_blocks d ≡ taken)
      → Ensures i s r s'
  allocated :
      (d : ℕ)
      → r ≡ true
      → s' ≡ with_block i d s
      → (s.inode_table i).i_size ≡ 0
      → d < s.fs_params.max_block_count
      → s.free_blocks d ≡ free
      → Ensures i s r s'
  present : r ≡ true → s' ≡ s → 0 < (s.inode_table i).i_size → Ensures i s r s'

-- What `ensure_block` does with the result of the allocation.
abbrev give_block : ℕ → Inode → Option ℕ → M Bool
give_block i node bnum =
    on_index bnum (pure false)
      (λ bnum. do set_inode i (record node { i_data_block = some bnum }); pure true)

pub ensure_block-Ensures : (i : ℕ) (s : Fs) → Ends (Ensures i s) (ensure_block i s)
unfolding ensure_block ◌>>=◌ ◌>>◌ reads branch pure on_index set_inode modify
ensure_block-Ensures i s = elim (Bool-cases ((s.inode_table i).i_size == 0)) [
  | inr some_bytes ↦ rw some_bytes (ends true s (present refl refl (ground arith)))
  | inl empty ↦ rw empty (
      Ends->>= data_block_alloc (give_block i (s.inode_table i)) s (data_block_alloc-Takes s)
        λ r s' tk. elim tk [
          | full er es all ↦ rw (er, es) (ends false s (no_space refl refl (==→eq _ _ empty) all))
          | took d er es lt fr m ↦
              rw (er, es)
                (ends true (with_block i d s) (allocated d refl refl (==→eq _ _ empty) lt fr))
        ])
]

-- The inodes after file `i` has been written up to `m`.
abbrev pub grow : ℕ → ℕ → (ℕ → Inode) → ℕ → Inode
grow i m inodes =
    if ltb (inodes i).i_size m then update inodes i (record (inodes i) { i_size = m }) else inodes

-- The state after `n` bytes have gone to block `d`, with contents `c`, of file `i` by handle `k`.
abbrev pub stored : ℕ → ℕ → ℕ → (ℕ → ℕ) → (ℕ → ℕ) → ℕ → Fs → Fs
stored k i d c buffer n s =
    let entry = s.open_file_table k in
    record s {
      fs_data = update s.fs_data d (bytes (copy_in c entry.of_offset buffer n));
      open_file_table =
          update s.open_file_table k (record entry { of_offset = add_size entry.of_offset n });
      inode_table = grow i (add_size entry.of_offset n) s.inode_table;
    }

pub store_bytes-eq :
    (k i d : ℕ) (c buffer : ℕ → ℕ) (n : ℕ) (s : Fs)
    → (s.inode_table i).i_data_block ≡ some d
    → d < s.fs_params.max_block_count
    → s.fs_data d ≡ bytes c
    → (s.open_file_table k).of_offset + n ≤ s.fs_params.block_size
    → store_bytes k i buffer n s ≡ some (tt, stored k i d c buffer n s)
unfolding store_bytes ◌>>=◌ ◌>>◌ reads branch pure abort write_block modify set_inode
store_bytes-eq k i d c buffer n s ed lt ec le = ground (arith, data_block_get-eq d s lt)

grow-FileOk :
    (b i d m : ℕ) (p : TfsParams) (inodes : ℕ → Inode)
    → (inodes i).i_data_block ≡ some d
    → d < p.max_block_count
    → d ≢ b
    → (inodes i).i_size ≤ p.block_size
    → m ≤ p.block_size
    → FileOk b p (grow i m inodes i)
grow-FileOk b i d m p inodes ed lt ne le le' = record {
  size_le = ground arith;
  block_ok = λ _. (d, ground arith, lt, ne);
}

grow-other : (i m j : ℕ) (inodes : ℕ → Inode) → j ≢ i → grow i m inodes j ≡ inodes j
grow-other i m j inodes ne = ground arith

module _ {b : ℕ} {e : ℕ → DirEntry} {s : Fs} (v : Inv b e s) (k i d : ℕ) (c buffer : ℕ → ℕ) (n : ℕ)
    (nz : i ≢ 0) (open_k : s.free_open_file_entries k ≡ taken)
    (of_i : (s.open_file_table k).of_inumber ≡ i) (ed : (s.inode_table i).i_data_block ≡ some d)
    (lt : d < s.fs_params.max_block_count) (ne : d ≢ b)
    (owns : s.freeinode_ts i ≡ taken → Owns s i d)
    (size_le : (s.inode_table i).i_size ≤ s.fs_params.block_size)
    (le : (s.open_file_table k).of_offset + n ≤ s.fs_params.block_size) where
  no_wrap : add_size (s.open_file_table k).of_offset n ≡ (s.open_file_table k).of_offset + n
  no_wrap = omega (arith, v.root.small)

  others :
      (j : ℕ)
      → s.freeinode_ts i ≡ taken
      → j ≢ i
      → j ≢ 0
      → s.freeinode_ts j ≡ taken
      → 0 < (s.inode_table j).i_size
      → (s.inode_table j).i_data_block ≢ some d
  others j t = (owns t).1 j

  abbrev top : ℕ
  top = add_size (s.open_file_table k).of_offset n

  grown_ok :
      (j : ℕ)
      → FileOk b s.fs_params (s.inode_table j)
      → FileOk b s.fs_params (grow i top s.inode_table j)
  grown_ok j ok = elim (Bool-cases (j == i)) [
    | inl same ↦
        subst (λ x. FileOk b s.fs_params (grow i top s.inode_table x)) (sym (==→eq _ _ same))
          (grow-FileOk b i d top s.fs_params s.inode_table ed lt ne size_le (ground arith))
    | inr other ↦
        subst (FileOk b s.fs_params) (sym (grow-other i top j s.inode_table (not_==→ne _ _ other)))
          ok
  ]

  pub Inv-stored : Inv b e (stored k i d c buffer n s)
  Inv-stored = record {
    root = record {
      small = v.root.small;
      root_in = v.root.root_in;
      root_taken = v.root.root_taken;
      root_type = ground (arith, v.root.root_type);
      root_block = ground (arith, v.root.root_block);
      block_in = v.root.block_in;
      block_taken = v.root.block_taken;
      block_entries = ground (arith, v.root.block_entries);
    };
    directory = v.directory;
    storage = record {
      file_ok = λ j nzj tj. grown_ok j (v.storage.file_ok j nzj tj);
      owned = λ j x nzj tj pos ej. ground (arith, v.storage.owned j x, owns);
      disjoint = λ j l x nzj nzl tj tl posj posl ej el.
          ground (arith, v.storage.disjoint j l x, others j, others l);
      plain = λ x nex.
          let (c', q) = v.storage.plain x nex in
          elim (Bool-cases (d == x)) [
            | inl same ↦ (copy_in c (s.open_file_table k).of_offset buffer n, ground arith)
            | inr other ↦ (c', ground arith)
          ];
    };
    handles = record {
      inode_in = λ h t. ground (arith, v.handles.inode_in h);
      not_root = λ h t. ground (arith, v.handles.not_root h);
      offset_le = λ h t. ground (arith, v.handles.offset_le h);
      opened_ok = λ h t.
          update_ind (λ f. FileOk b s.fs_params (grow i top s.inode_table f.of_inumber))
            s.open_file_table k _ h (λ _. grown_ok _ (v.handles.opened_ok k open_k))
            (λ _. grown_ok _ (v.handles.opened_ok h t));
    };
  }
