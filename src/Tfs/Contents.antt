-- ===== src/Tfs/Contents.antt =====
-- The bytes of the files across `tfs_write` of fs2/operations.c.
use so_project.Base.{
  ℕ, ◌+◌, ◌^◌, ◌≤◌, ◌<◌, ◌≡◌, refl, ap, ◌∙◌, ◌≢◌, ◌⊎◌, inl, inr, subst, false, Option, none, some,
  ltb, if◌then◌else◌, arith,
}
use so_project.Tfs.Types.{DirEntry, taken, OpenFileEntry, Block, bytes, entries, Fs}
use so_project.Base.Monad.{Ends, Ends-mono}
use so_project.Tfs.Operations.{clamp_write, tfs_write}
use so_project.Tfs.Valid.{Inv, IsValid, Inv-mutex}
use so_project.Tfs.Steps.{unlock}
use so_project.Tfs.Write.{Owns, stored, Inv-stored}
use so_project.Tfs.WriteLaws.{
  Owns-present, Owns-with_block, Inv-with_block, Prepared, Writes, refused, nothing, no_block,
  wrote, clamp_write-fits, tfs_write-Writes,
}

abbrev pub block_byte : Block → ℕ → ℕ
block_byte (bytes c) p = c p
block_byte (entries e) p = 0

abbrev pub block_bytes : Fs → Option ℕ → ℕ → ℕ
block_bytes s block p = elim block [ none ↦ 0 | some d ↦ block_byte (s.fs_data d) p ]

-- The byte at `p` of file `i`.
abbrev pub byte_at : Fs → ℕ → ℕ → ℕ
byte_at s i = block_bytes s (s.inode_table i).i_data_block

abbrev pub file_size : Fs → ℕ → ℕ
file_size s i = (s.inode_table i).i_size

-- A write of `to_write` bytes of `buffer` by the open handle `k`.
pub record Written (b : ℕ) (e : ℕ → DirEntry) (k : ℕ) (buffer : ℕ → ℕ) (to_write : ℕ) (s : Fs)
    (r : Option ℕ) (s' : Fs) : Type 0 where
  pub valid : IsValid b e s'
  pub failed : r ≡ none → s' ≡ s
  pub no_room :
      r ≡ none
      → (file_size s (s.open_file_table k).of_inumber ≡ 0)
        × ((d : ℕ) → d < s.fs_params.max_block_count → s.free_blocks d ≡ taken)
  pub nothing : r ≡ some 0 → s' ≡ s
  pub count :
      (n : ℕ)
      → r ≡ some n
      → (n ≤ to_write)
        × ((s.open_file_table k).of_offset + n ≤ s.fs_params.block_size)
        × ((n ≡ to_write) ⊎ ((s.open_file_table k).of_offset + n ≡ s.fs_params.block_size))
  pub offset :
      (n : ℕ) → r ≡ some n → (s'.open_file_table k).of_offset ≡ (s.open_file_table k).of_offset + n
  pub same_file : (s'.open_file_table k).of_inumber ≡ (s.open_file_table k).of_inumber
  pub same_params : s'.fs_params ≡ s.fs_params
  pub in_use : (j : ℕ) → s'.free_open_file_entries j ≡ s.free_open_file_entries j
  pub other_handles : (j : ℕ) → j ≢ k → s'.open_file_table j ≡ s.open_file_table j
  pub inodes_in_use : (j : ℕ) → s'.freeinode_ts j ≡ s.freeinode_ts j
  pub size :
      (n : ℕ)
      → r ≡ some n
      → 0 < n
      → let i = (s.open_file_table k).of_inumber in
        let top = (s.open_file_table k).of_offset + n in
        file_size s' i ≡ (if ltb (file_size s i) top then top else file_size s i)
  pub inside :
      (n p : ℕ)
      → r ≡ some n
      → p < n
      → byte_at s' (s.open_file_table k).of_inumber ((s.open_file_table k).of_offset + p) ≡ buffer p
  pub around :
      (n p : ℕ)
      → r ≡ some n
      → (p < (s.open_file_table k).of_offset) ⊎ ((s.open_file_table k).of_offset + n ≤ p)
      → p < file_size s (s.open_file_table k).of_inumber
      → byte_at s' (s.open_file_table k).of_inumber p ≡ byte_at s (s.open_file_table k).of_inumber p
  pub others :
      (j : ℕ)
      → j ≢ (s.open_file_table k).of_inumber
      → j ≢ 0
      → s.freeinode_ts j ≡ taken
      → (file_size s' j ≡ file_size s j)
        × ((p : ℕ) → p < file_size s j → byte_at s' j p ≡ byte_at s j p)

module _ {b : ℕ} {e : ℕ → DirEntry} (s : Fs) (v : Inv b e s) (k : ℕ) (buffer : ℕ → ℕ) (to_write : ℕ)
    (u : s.g_library_mutex ≡ false) (t : s.free_open_file_entries k ≡ taken)
    (exists : s.freeinode_ts (s.open_file_table k).of_inumber ≡ taken)
    (lt : to_write < 2 ^ 63) where
  abbrev off : ℕ
  off = (s.open_file_table k).of_offset

  abbrev ino : ℕ
  ino = (s.open_file_table k).of_inumber

  unchanged-Written :
      (r : Option ℕ) (s' : Fs)
      → s' ≡ s
      → (r ≡ none
          → (file_size s ino ≡ 0)
            × ((d : ℕ) → d < s.fs_params.max_block_count → s.free_blocks d ≡ taken))
      → ((n : ℕ) → r ≡ some n → (n ≡ 0) × (clamp_write s.fs_params.block_size off to_write ≡ 0))
      → Written b e k buffer to_write s r s'
  unchanged-Written r s' es no_room h =
      let fits =
        clamp_write-fits s.fs_params.block_size off to_write v.root.small (v.handles.offset_le k t)
          lt in
      let le = v.handles.offset_le k t in
      let small = v.root.small in
      rw es (record {
        valid = record { inv = v; unlocked = u };
        failed = λ _. refl;
        no_room = no_room;
        nothing = λ _. refl;
        count = λ n er. let (n0, c0) = h n er in (omega arith, omega arith, ground arith);
        offset = λ n er. let (n0, c0) = h n er in omega arith;
        same_file = refl;
        same_params = refl;
        in_use = λ j. refl;
        other_handles = λ j ne. refl;
        inodes_in_use = λ j. refl;
        size = λ n er pos. let (n0, c0) = h n er in absurd (omega arith);
        inside = λ n p er ltp. let (n0, c0) = h n er in absurd (omega arith);
        around = λ n p er q ltp. refl;
        others = λ j ne nz tj. (refl, λ p ltp. refl);
      })

  Prepared-Inv :
      (d : ℕ) (w : Fs)
      → Prepared ino d s w
      → (w.inode_table ino).i_data_block ≡ some d
      → Inv b e w × Owns w ino d × (d ≢ b)
  Prepared-Inv d w (inl (ew, pos)) ed =
      let nz = v.handles.not_root k t in
      let (d', ed', ltd, ne) = (v.handles.opened_ok k t).block_ok pos in
      rw ew (v, Owns-present ino d v nz pos (ground arith) exists, ground arith)
  Prepared-Inv d w (inr (ew, empty, fr)) ed =
      let nz = v.handles.not_root k t in
      rw ew (
        Inv-with_block v ino d nz fr empty,
        Owns-with_block v ino d nz fr,
        ground (arith, v.root.block_taken),
      )

  -- What the two preparations leave as it was.
  record Frame (w : Fs) : Type 0 where
    params : w.fs_params ≡ s.fs_params
    files : w.open_file_table k ≡ s.open_file_table k
    in_use : (j : ℕ) → w.free_open_file_entries j ≡ s.free_open_file_entries j
    all_files : (j : ℕ) → w.open_file_table j ≡ s.open_file_table j
    inodes_same : (j : ℕ) → w.freeinode_ts j ≡ s.freeinode_ts j
    data_same : (x : ℕ) → w.fs_data x ≡ s.fs_data x
    size_same : (j : ℕ) → file_size w j ≡ file_size s j
    other : (j : ℕ) → j ≢ ino → w.inode_table j ≡ s.inode_table j
    own : 0 < file_size s ino → (w.inode_table ino).i_data_block ≡ (s.inode_table ino).i_data_block

  Prepared-Frame : (d : ℕ) (w : Fs) → Prepared ino d s w → Frame w
  Prepared-Frame d w (inl (ew, pos)) = rw ew (record {
    params = refl;
    files = refl;
    in_use = λ j. refl;
    all_files = λ j. refl;
    inodes_same = λ j. refl;
    data_same = λ x. refl;
    size_same = λ j. refl;
    other = λ j ne. refl;
    own = λ h. refl;
  })
  Prepared-Frame d w (inr (ew, empty, fr)) = rw ew (record {
    params = refl;
    files = refl;
    in_use = λ j. refl;
    all_files = λ j. refl;
    inodes_same = λ j. refl;
    data_same = λ x. refl;
    size_same = λ j. ground arith;
    other = λ j ne. ground arith;
    own = λ h. absurd (ground arith);
  })

  wrote-Written :
      (d n : ℕ) (c : ℕ → ℕ) (w s' : Fs) (r : Option ℕ)
      → n ≡ clamp_write s.fs_params.block_size off to_write
      → 0 < n
      → Prepared ino d s w
      → (w.inode_table ino).i_data_block ≡ some d
      → d < s.fs_params.max_block_count
      → s.fs_data d ≡ bytes c
      → r ≡ some n
      → s' ≡ unlock (stored k ino d c buffer n w)
      → Written b e k buffer to_write s r s'
  wrote-Written d n c w s' r en pos prep ed ltd ec er es =
      let (inv, own, ne) = Prepared-Inv d w prep ed in
      let le = v.handles.offset_le k t in
      let small = v.root.small in
      let fits = clamp_write-fits s.fs_params.block_size off to_write small le lt in
      let nz = v.handles.not_root k t in
      let f = Prepared-Frame d w prep in
      let size_le = (v.handles.opened_ok k t).size_le in
      rw (es, er)
        (record {
          valid = record {
            inv = Inv-mutex false (
                Inv-stored inv k ino d c buffer n nz (f.in_use k ∙ t)
                  (ap (λ (g : OpenFileEntry). g.of_inumber) f.files) ed (rw f.params ltd) ne
                  (λ _. own) (ground (arith, f.params, f.size_same ino))
                  (ground (arith, f.params, f.files)));
            unlocked = refl;
          };
          failed = λ q. cc;
          no_room = λ q. cc;
          nothing = λ q. absurd (ground arith);
          count = λ m q. (ground arith, ground arith, ground arith);
          offset = λ m q. ground (arith, f.files);
          same_file = ground (arith, f.files);
          same_params = f.params;
          in_use = f.in_use;
          other_handles = λ j nej. ground (arith, f.all_files j);
          inodes_in_use = f.inodes_same;
          size = λ m q posm. ground (arith, f.files, f.size_same ino);
          inside = λ m p q ltp. ground (arith, f.files);
          around = λ m p q out ltp. ground (arith, f.files, f.own);
          others = λ j nej nzj tj.
              (ground (arith, f.other j), λ p ltp. ground (arith, f.other j, f.data_same, own.1 j));
        })

  Writes-Written :
      (r : Option ℕ) (s' : Fs)
      → k < s.fs_params.max_open_files_count
      → Writes (some k) buffer to_write s r s'
      → Written b e k buffer to_write s r s'
  Writes-Written r s' ltk (refused er es shut) = absurd (ground (arith, shut k refl ltk))
  Writes-Written r s' ltk (nothing j ej none_left er es) =
      unchanged-Written r s' es (λ q. cc) (λ n q. (ground arith, ground arith))
  Writes-Written r s' ltk (no_block j ej empty all er es) =
      let same : j ≡ k = ground arith in
      unchanged-Written r s' es
        (λ q. (subst (λ x. file_size s (s.open_file_table x).of_inumber ≡ 0) same empty, all))
        (λ n q. absurd (ground arith))
  Writes-Written r s' ltk (wrote j i d n c w ej tj ei en pos prep ed ltd ec er es) =
      let ek : j ≡ k = ground arith in
      let eo : i ≡ ino = cc in
      wrote-Written d n c w s' r (ground arith) pos (subst (λ x. Prepared x d s w) eo prep)
        (ground arith) ltd ec er
        (es
          ∙ ap (λ x. unlock (stored x i d c buffer n w)) ek
          ∙ ap (λ x. unlock (stored k x d c buffer n w)) eo)

-- From a valid state, on an open handle of a file that is still in the directory, and with less
-- than 2^63 bytes to write, `tfs_write` returns in a valid state. It fails only when the file is
-- empty and every block is taken, and then, as when no byte is written, nothing changes.
-- Otherwise it writes all the bytes, or as many as the block has room for from the handle's offset:
-- the handle advances by as many, the file grows to the end of the write if that is beyond its end,
-- the bytes read there are those of the buffer, and every other byte of every file is what it was.
pub tfs_write-Written :
    {b : ℕ} {e : ℕ → DirEntry} (s : Fs) (k : ℕ) (buffer : ℕ → ℕ) (to_write : ℕ)
    → IsValid b e s
    → k < s.fs_params.max_open_files_count
    → s.free_open_file_entries k ≡ taken
    → s.freeinode_ts (s.open_file_table k).of_inumber ≡ taken
    → to_write < 2 ^ 63
    → Ends (Written b e k buffer to_write s) (tfs_write (some k) buffer to_write s)
tfs_write-Written s k buffer to_write v ltk t exists lt =
    Ends-mono (tfs_write-Writes s (some k) buffer to_write v lt)
      (λ r s'. Writes-Written s v.inv k buffer to_write v.unlocked t exists lt r s' ltk)
