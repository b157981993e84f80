-- ===== src/Tfs/WriteLaws.antt =====
-- `tfs_write` of fs2/operations.c: what it does branch by branch, and the bytes of the files.
use so_project.Base.{
  ℕ, ◌+◌, ◌^◌, ◌≤◌, ◌<◌, ◌≡◌, refl, ap, ◌≢◌, ◌⊎◌, inl, inr, Option, none, some, update_self,
  update_ind, ltb, ltb→lt, Bool-cases, arith,
}
use so_project.Tfs.Types.{DirEntry, free, taken, bytes, Fs}
use so_project.Base.Monad.{
  ◌>>◌, reads, branch, on_index, Ends, Ends->>=, Ends-then, Ends-step, Ends-done,
}
use so_project.Tfs.Operations.{store_bytes, clamp_write, write_file, tfs_write, unlock_return}
use so_project.Tfs.Valid.{FileOk, Inv, IsValid}
use so_project.Tfs.Handles.{
  Handles-inode, mutex_lock-eq, unlock_return-eq, relock, IsClosed, closed, opened,
  get_open_file_entry-Lookup,
}
use so_project.Tfs.Steps.{lock, unlock, inode_get-eq}
use so_project.Tfs.Write.{
  Owns, with_block, no_space, allocated, present, ensure_block-Ensures, stored, store_bytes-eq,
}

-- A file that holds bytes is the only one on its block.
pub Owns-present :
    {b : ℕ} {e : ℕ → DirEntry} {s : Fs} (i d : ℕ)
    → Inv b e s
    → i ≢ 0
    → 0 < (s.inode_table i).i_size
    → (s.inode_table i).i_data_block ≡ some d
    → s.freeinode_ts i ≡ taken
    → Owns s i d
Owns-present i d v nz pos ed t = (
  v.storage.owned i d nz t pos ed,
  λ j ne nzj tj posj ej. ne (v.storage.disjoint j i d nzj nz tj t posj pos ej ed),
)

module _ {b : ℕ} {e : ℕ → DirEntry} {s : Fs} (v : Inv b e s) (i d : ℕ) (nz : i ≢ 0)
    (fr : s.free_blocks d ≡ free) where
  -- A block that was free belongs to no file.
  pub Owns-with_block : Owns (with_block i d s) i d
  Owns-with_block = (
    update_self s.free_blocks d taken,
    λ j ne nzj tj posj ej. ground (arith, v.storage.owned j d),
  )

  pub Inv-with_block : (s.inode_table i).i_size ≡ 0 → Inv b e (with_block i d s)
  Inv-with_block empty =
      let ok : FileOk b s.fs_params (record (s.inode_table i) { i_data_block = some d }) = record {
        size_le = ground arith;
        block_ok = λ h. absurd (ground arith);
      } in
      record {
        root = record {
          small = v.root.small;
          root_in = v.root.root_in;
          root_taken = v.root.root_taken;
          root_type = ground (arith, v.root.root_type);
          root_block = ground (arith, v.root.root_block);
          block_in = v.root.block_in;
          block_taken = ground (arith, v.root.block_taken);
          block_entries = v.root.block_entries;
        };
        directory = v.directory;
        storage = record {
          file_ok = λ j nzj tj.
              update_ind (FileOk b s.fs_params) s.inode_table i _ j (λ _. ok)
                (λ _. v.storage.file_ok j nzj tj);
          owned = λ j x nzj tj pos ej. ground (arith, v.storage.owned j x);
          disjoint =
              λ j l x nzj nzl tj tl posj posl ej el. ground (arith, v.storage.disjoint j l x);
          plain = v.storage.plain;
        };
        handles = Handles-inode v.handles i _ ok;
      }

-- Before the bytes are stored the file has the block `d`: its own, or a free one that it is given.
abbrev pub Prepared : ℕ → ℕ → Fs → Fs → Type 0
Prepared i d s t =
    ((t ≡ s) × (0 < (s.inode_table i).i_size))
    ⊎ ((t ≡ with_block i d s) × ((s.inode_table i).i_size ≡ 0) × (s.free_blocks d ≡ free))

-- What `tfs_write` does.
pub data Writes (h : Option ℕ) (buffer : ℕ → ℕ) (to_write : ℕ) (s : Fs) (r : Option ℕ) (s' : Fs)
    : Type 0 where
  refused : r ≡ none → s' ≡ s → IsClosed h s → Writes h buffer to_write s r s'
  nothing :
      (k : ℕ)
      → h ≡ some k
      → clamp_write s.fs_params.block_size (s.open_file_table k).of_offset to_write ≡ 0
      → r ≡ some 0
      → s' ≡ s
      → Writes h buffer to_write s r s'
  no_block :
      (k : ℕ)
      → h ≡ some k
      → (s.inode_table (s.open_file_table k).of_inumber).i_size ≡ 0
      → ((d : ℕ) → d < s.fs_params.max_block_count → s.free_blocks d ≡ taken)
      → r ≡ none
      → s' ≡ s
      → Writes h buffer to_write s r s'
  wrote :
      (k i d n : ℕ) (c : ℕ → ℕ) (t : Fs)
      → h ≡ some k
      → s.free_open_file_entries k ≡ taken
      → (s.open_file_table k).of_inumber ≡ i
      → n ≡ clamp_write s.fs_params.block_size (s.open_file_table k).of_offset to_write
      → 0 < n
      → Prepared i d s t
      → (t.inode_table i).i_data_block ≡ some d
      → d < s.fs_params.max_block_count
      → s.fs_data d ≡ bytes c
      → r ≡ some n
      → s' ≡ unlock (stored k i d c buffer n t)
      → Writes h buffer to_write s r s'

-- A write that does not wrap stays in the block.
pub clamp_write-fits :
    (block_size offset to_write : ℕ)
    → block_size < 2 ^ 63
    → offset ≤ block_size
    → to_write < 2 ^ 63
    → offset + clamp_write block_size offset to_write ≤ block_size
clamp_write-fits block_size offset to_write small le lt = ground arith

module _ {b : ℕ} {e : ℕ → DirEntry} (s : Fs) (v : IsValid b e s) (k : ℕ) (buffer : ℕ → ℕ)
    (to_write : ℕ) (t : s.free_open_file_entries k ≡ taken) (lt : to_write < 2 ^ 63) where
  abbrev off : ℕ
  off = (s.open_file_table k).of_offset

  abbrev ino : ℕ
  ino = (s.open_file_table k).of_inumber

  abbrev count : ℕ
  count = clamp_write s.fs_params.block_size off to_write

  -- The bytes are stored, and the mutex let go.
  store_bytes-Writes :
      (d : ℕ) (u : Fs)
      → 0 < count
      → Prepared ino d s u
      → u.fs_params ≡ s.fs_params
      → u.fs_data ≡ s.fs_data
      → u.open_file_table ≡ s.open_file_table
      → (u.inode_table ino).i_data_block ≡ some d
      → d < s.fs_params.max_block_count
      → d ≢ b
      → Ends
          (Writes (some k) buffer to_write s)
          ((store_bytes k ino buffer count >> unlock_return (some count)) (lock u))
  store_bytes-Writes d u pos prep ep ef eo ed ltd ne =
      let (c, ec) = v.inv.storage.plain d ne in
      let fits =
        clamp_write-fits s.fs_params.block_size off to_write v.inv.root.small
          (v.inv.handles.offset_le k t) lt in
      Ends-then _ _ _
        (store_bytes-eq k ino d c buffer count (lock u) ed (rw ep ltd) (rw ef ec)
          (rw (eo, ep) fits))
        (Ends-done (unlock_return-eq (some count) _)
          (wrote k ino d count c u refl t refl refl pos prep ed ltd ec refl refl))

  write_file-Writes :
      Ends (Writes (some k) buffer to_write s) (write_file k buffer to_write (lock s))
  unfolding write_file reads branch
  write_file-Writes = Ends-step _ _ (lock s) refl (
      Ends-step _ _ (lock s) (inode_get-eq ino (lock s) (v.inv.handles.inode_in k t)) (
        Ends-step _ _ (lock s) refl (elim (Bool-cases (ltb 0 count)) [
          | inr no_byte ↦
              let none_left : count ≡ 0 = ground arith in
              rw no_byte (
                Ends-done (unlock_return-eq (some count) (lock s))
                  (nothing k refl none_left (ap some none_left) (relock s v.unlocked)))
          | inl some_byte ↦ rw some_byte (
              Ends->>= _ _ (lock s) (ensure_block-Ensures ino (lock s)) λ r s' en. elim en [
                | no_space er es empty all ↦
                    rw (er, es)
                      (Ends-done (unlock_return-eq none (lock s))
                        (no_block k refl empty all refl (relock s v.unlocked)))
                | allocated d er es empty ltd fr ↦
                    rw (er, es)
                      (store_bytes-Writes d (with_block ino d s) (ltb→lt _ _ some_byte)
                        (inr (refl, empty, fr)) refl refl refl (ground arith) ltd
                        (ground (arith, v.inv.root.block_taken)))
                | present er es pos ↦
                    let (d, ed, ltd, ne) = (v.inv.handles.opened_ok k t).block_ok pos in
                    rw (er, es)
                      (store_bytes-Writes d s (ltb→lt _ _ some_byte) (inl (refl, pos)) refl refl
                        refl ed ltd ne)
              ])
        ])))

-- From a valid state, with less than 2^63 bytes to write, `tfs_write` returns, with one of the
-- outcomes of `Writes`.
pub tfs_write-Writes :
    {b : ℕ} {e : ℕ → DirEntry} (s : Fs) (h : Option ℕ) (buffer : ℕ → ℕ) (to_write : ℕ)
    → IsValid b e s
    → to_write < 2 ^ 63
    → Ends (Writes h buffer to_write s) (tfs_write h buffer to_write s)
unfolding tfs_write on_index
tfs_write-Writes s h buffer to_write v lt = Ends-then _ _ s (mutex_lock-eq s v.unlocked) (
    Ends->>= _ _ _ (get_open_file_entry-Lookup h (lock s)) λ r s' found. elim found [
      | closed er es shut ↦
          rw (er, es)
            (Ends-done (unlock_return-eq none _) (refused refl (relock s v.unlocked) shut))
      | opened k eh er es ltk t ↦ rw (er, es, eh) (write_file-Writes s v k buffer to_write t lt)
    ])
