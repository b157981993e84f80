-- ===== src/Tfs/Read.antt =====
-- `tfs_read` of fs2/operations.c.
use so_project.Base.{
  ℕ, ◌+◌, ◌^◌, ◌≤◌, ◌<◌, ◌≡◌, refl, sym, ap, ◌∙◌, ◌≢◌, ◌⊎◌, inl, inr, false, Option, some, List, [],
  update, update_ind, ltb, Bool-cases, add_size, arith,
}
use so_project.Tfs.Types.{DirEntry, taken, bytes, Fs}
use so_project.Base.Monad.{
  pure, ◌>>=◌, ◌>>◌, reads, modify, abort, branch, on_index, Ends, Ends->>=, Ends-step, Ends-then,
  Ends-done,
}
use so_project.Tfs.Operations.{clamp_read, slice, read_block, fetch_bytes, read_file, tfs_read}
use so_project.Tfs.Valid.{FileOk, Inv, IsValid, Inv-mutex}
use so_project.Tfs.Handles.{
  mutex_lock-eq, unlock_return-eq, relock, closed, opened, get_open_file_entry-Lookup,
}
use so_project.Tfs.DirCalls.{data_block_get-eq}
use so_project.Tfs.Steps.{lock, unlock, inode_get-eq}
use so_project.Tfs.Contents.{block_byte, block_bytes, byte_at, file_size}

-- The state after handle `k` has advanced by `n`.
abbrev pub advance : ℕ → ℕ → Fs → Fs
advance k n s =
    let entry = s.open_file_table k in
    record s {
      open_file_table =
          update s.open_file_table k (record entry { of_offset = add_size entry.of_offset n });
    }

fetch_bytes-eq :
    (k i d n : ℕ) (c : ℕ → ℕ) (s : Fs)
    → (s.inode_table i).i_data_block ≡ some d
    → d < s.fs_params.max_block_count
    → s.fs_data d ≡ bytes c
    → (s.open_file_table k).of_offset + n ≤ s.fs_params.block_size
    → fetch_bytes k i n s ≡ some (slice c (s.open_file_table k).of_offset n, advance k n s)
unfolding fetch_bytes ◌>>=◌ ◌>>◌ reads branch pure abort read_block modify
fetch_bytes-eq k i d n c s ed lt ec le = ground (arith, data_block_get-eq d s lt)

Inv-advance :
    {b : ℕ} {e : ℕ → DirEntry} {s : Fs} (k n : ℕ)
    → Inv b e s
    → s.free_open_file_entries k ≡ taken
    → (s.open_file_table k).of_offset + n ≤ s.fs_params.block_size
    → Inv b e (advance k n s)
Inv-advance {b} {s} k n v used le = record {
  root = v.root;
  directory = v.directory;
  storage = v.storage;
  handles = record {
    inode_in = λ h t. ground (arith, v.handles.inode_in h);
    not_root = λ h t. ground (arith, v.handles.not_root h);
    offset_le = λ h t. ground (arith, v.handles.offset_le h, v.root.small);
    opened_ok = λ h t.
        update_ind (λ f. FileOk b s.fs_params (s.inode_table f.of_inumber)) s.open_file_table k _ h
          (λ same. v.handles.opened_ok k used) (λ ne. v.handles.opened_ok h t);
  };
}

-- A read of at most `len` bytes by the open handle `k`: `n` bytes, that `out` are.
pub record Read (b : ℕ) (e : ℕ → DirEntry) (k len : ℕ) (s : Fs) (r : Option ℕ × List ℕ) (s' : Fs)
    : Type 0 where
  pub n : ℕ
  pub count : r.0 ≡ some n
  pub at_most : n ≤ len
  pub in_file : (s.open_file_table k).of_offset + n ≤ file_size s (s.open_file_table k).of_inumber
  pub exact :
      (n ≡ len)
      ⊎ ((s.open_file_table k).of_offset + n ≡ file_size s (s.open_file_table k).of_inumber)
  pub out :
      r.1 ≡ slice (byte_at s (s.open_file_table k).of_inumber) (s.open_file_table k).of_offset n
  pub offset : (s'.open_file_table k).of_offset ≡ (s.open_file_table k).of_offset + n
  pub same_file : (s'.open_file_table k).of_inumber ≡ (s.open_file_table k).of_inumber
  pub other_handles : (j : ℕ) → j ≢ k → s'.open_file_table j ≡ s.open_file_table j
  pub rest : s' ≡ record s { open_file_table = s'.open_file_table }
  pub valid : IsValid b e s'

byte_at-eq :
    (s : Fs) (i d : ℕ) (c : ℕ → ℕ)
    → (s.inode_table i).i_data_block ≡ some d
    → s.fs_data d ≡ bytes c
    → byte_at s i ≡ c
byte_at-eq s i d c ed ec = ap (block_bytes s) ed ∙ ap block_byte ec

-- A read within the file does not wrap.
clamp_read-fits :
    (size offset len : ℕ)
    → size < 2 ^ 63
    → offset ≤ size
    → let n = clamp_read size offset len in
      (n ≤ len) × (offset + n ≤ size) × ((n ≡ len) ⊎ (offset + n ≡ size))
clamp_read-fits size offset len small le = (ground arith, ground arith, ground arith)

module _ {b : ℕ} {e : ℕ → DirEntry} (s : Fs) (v : IsValid b e s) (k len : ℕ)
    (t : s.free_open_file_entries k ≡ taken)
    (le : (s.open_file_table k).of_offset ≤ file_size s (s.open_file_table k).of_inumber) where
  abbrev off : ℕ
  off = (s.open_file_table k).of_offset

  abbrev ino : ℕ
  ino = (s.open_file_table k).of_inumber

  abbrev count : ℕ
  count = clamp_read (file_size s ino) off len

  Read-Read :
      (bytes_read : List ℕ)
      → bytes_read ≡ slice (byte_at s ino) off count
      → Read b e k len s (some count, bytes_read) (unlock (advance k count s))
  Read-Read bytes_read same =
      let size_le = (v.inv.handles.opened_ok k t).size_le in
      let small = v.inv.root.small in
      let (most, fits, exact) = clamp_read-fits (file_size s ino) off len (ground arith) le in
      let no_wrap : add_size off count ≡ off + count = omega arith in
      record {
        n = count;
        count = refl;
        at_most = most;
        in_file = fits;
        exact = exact;
        out = same;
        offset = ground arith;
        same_file = ground arith;
        other_handles = λ j ne. ground arith;
        rest = relock (advance k count s) v.unlocked;
        valid = record {
          inv = Inv-mutex false (Inv-advance k count v.inv t (ground arith));
          unlocked = refl;
        };
      }

  read_file-Read : Ends (Read b e k len s) (read_file k len (lock s))
  unfolding read_file reads branch slice
  read_file-Read = Ends-step _ _ (lock s) refl (
      Ends-step _ _ (lock s) (inode_get-eq ino (lock s) (v.inv.handles.inode_in k t)) (
        Ends-step _ _ (lock s) refl (elim (Bool-cases (ltb 0 count)) [
          | inr no_byte ↦
              let size_le = (v.inv.handles.opened_ok k t).size_le in
              let small = v.inv.root.small in
              let (most, fits, exact) =
                clamp_read-fits (file_size s ino) off len (ground arith) le in
              let none_left : count ≡ 0 = ground arith in
              rw no_byte (
                Ends-done (unlock_return-eq (some count, []) (lock s)) (record {
                  n = count;
                  count = refl;
                  at_most = most;
                  in_file = fits;
                  exact = exact;
                  out = ap (slice (byte_at s ino) off) (sym none_left);
                  offset = omega arith;
                  same_file = refl;
                  other_handles = λ j ne. refl;
                  rest = relock s v.unlocked;
                  valid = record { inv = Inv-mutex false v.inv; unlocked = refl };
                }))
          | inl some_byte ↦
              let size_le = (v.inv.handles.opened_ok k t).size_le in
              let small = v.inv.root.small in
              let (most, fits, exact) =
                clamp_read-fits (file_size s ino) off len (ground arith) le in
              let (d, ed, ltd, ne) = (v.inv.handles.opened_ok k t).block_ok (ground arith) in
              let (c, ec) = v.inv.storage.plain d ne in
              rw some_byte (
                Ends-step _ _ (lock s)
                  (fetch_bytes-eq k ino d count c (lock s) ed ltd ec (ground arith))
                  (Ends-done (unlock_return-eq (some count, slice c off count) _) (
                    Read-Read (slice c off count)
                      (ap (λ f. slice f off count) (sym (byte_at-eq s ino d c ed ec))))))
        ])))

-- From a valid state, on an open handle whose offset is within the file, `tfs_read` returns in a
-- valid state. It reads all the bytes asked for, or as many as the file has left from the offset;
-- they are the bytes of the file there. The handle advances by as many, and nothing else changes.
pub tfs_read-Read :
    {b : ℕ} {e : ℕ → DirEntry} (s : Fs) (k len : ℕ)
    → IsValid b e s
    → k < s.fs_params.max_open_files_count
    → s.free_open_file_entries k ≡ taken
    → (s.open_file_table k).of_offset ≤ file_size s (s.open_file_table k).of_inumber
    → Ends (Read b e k len s) (tfs_read (some k) len s)
unfolding tfs_read on_index
tfs_read-Read s k len v ltk t le = Ends-then _ _ s (mutex_lock-eq s v.unlocked) (
    Ends->>= _ _ _ (get_open_file_entry-Lookup (some k) (lock s)) λ r s' found. elim found [
      | closed er es shut ↦ absurd (ground (arith, shut k refl ltk))
      | opened j ej er es ltj tj ↦
          let same : k ≡ j = ground arith in rw (er, es, sym same) (read_file-Read s v k len t le)
    ])
