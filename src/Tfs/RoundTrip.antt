-- ===== src/Tfs/RoundTrip.antt =====
-- A `tfs_write` of fs2/operations.c, and a `tfs_read` after it.
use so_project.Base.{ℕ, zero, suc, ◌+◌, ◌^◌, ◌<◌, ◌≡◌, refl, ap, ◌∙◌, ◌≢◌, Option, some, arith}
use so_project.Tfs.Types.{DirEntry, taken, OpenFileEntry, Fs}
use so_project.Base.Monad.{Ends, Ends-mono}
use so_project.Tfs.Operations.{slice, tfs_write, tfs_read}
use so_project.Tfs.Valid.{IsValid}
use so_project.Tfs.Contents.{byte_at, Written, tfs_write-Written}
use so_project.Tfs.Read.{tfs_read-Read}

pair_eq : {A B : Type 0} (q : A × B) {a : A} {c : B} → q.0 ≡ a → q.1 ≡ c → q ≡ (a, c)
pair_eq (x, y) p r = rw (p, r) refl

-- Memories that agree on `n` bytes have the same slice.
slice-eq :
    (n a c : ℕ) (f g : ℕ → ℕ)
    → ((p : ℕ) → p < n → f (a + p) ≡ g (c + p))
    → slice f a n ≡ slice g c n
unfolding slice
slice-eq zero a c f g h = refl
slice-eq (suc n) a c f g h =
    let head : f a ≡ g c = ground (arith, h 0) in
    let tail = slice-eq n (a + 1) (c + 1) f g (λ p lt. ground (arith, h (p + 1))) in
    rw (head, tail) refl

module _ {b : ℕ} {e : ℕ → DirEntry} (s : Fs) (k j : ℕ) (buffer : ℕ → ℕ) (to_write : ℕ)
    (ltj : j < s.fs_params.max_open_files_count) (tj : s.free_open_file_entries j ≡ taken)
    (ne : j ≢ k) (same : s.open_file_table j ≡ s.open_file_table k) where
  -- A read of `n` bytes after a write that wrote `n`.
  reads_back :
      (r : Option ℕ) (s' : Fs) (n : ℕ)
      → Written b e k buffer to_write s r s'
      → r ≡ some n
      → 0 < n
      → Ends (λ q s''. q ≡ (some n, slice buffer 0 n)) (tfs_read (some j) n s')
  reads_back r s' n w er pos =
      let at_j : s'.open_file_table j ≡ s.open_file_table k = w.other_handles j ne ∙ same in
      let grown = w.size n er pos in
      Ends-mono
        (tfs_read-Read s' j n w.valid (ground (arith, w.same_params)) (w.in_use j ∙ tj)
          (ground arith))
        (λ q s'' rd.
          let all : rd.n ≡ n = ground (
            arith,
            ap (λ (f : OpenFileEntry). f.of_inumber) at_j,
            ap (λ (f : OpenFileEntry). f.of_offset) at_j,
          ) in
          pair_eq q (rd.count ∙ ap some all) (
            rd.out
            ∙ ap (λ (f : OpenFileEntry). slice (byte_at s' f.of_inumber) f.of_offset rd.n) at_j
            ∙ ap
                (slice (byte_at s' (s.open_file_table k).of_inumber)
                  (s.open_file_table k).of_offset)
                all
            ∙ slice-eq n (s.open_file_table k).of_offset 0
                (byte_at s' (s.open_file_table k).of_inumber) buffer
                (λ p lt. ground (arith, w.inside n p er lt))))

-- Two handles of one file at one offset: from a valid state, when the file is still in the directory
-- and less than 2^63 bytes are to be written, `tfs_write` on one returns, and if it has written
-- `n` bytes, `n` not zero, `tfs_read` of `n` bytes on the other returns just the bytes written.
pub tfs_read-tfs_write :
    {b : ℕ} {e : ℕ → DirEntry} (s : Fs) (k j : ℕ) (buffer : ℕ → ℕ) (to_write : ℕ)
    → IsValid b e s
    → k < s.fs_params.max_open_files_count
    → s.free_open_file_entries k ≡ taken
    → j < s.fs_params.max_open_files_count
    → s.free_open_file_entries j ≡ taken
    → j ≢ k
    → s.open_file_table j ≡ s.open_file_table k
    → s.freeinode_ts (s.open_file_table k).of_inumber ≡ taken
    → to_write < 2 ^ 63
    → Ends
        (λ r s'.
          (n : ℕ)
          → r ≡ some n
          → 0 < n
          → Ends (λ q s''. q ≡ (some n, slice buffer 0 n)) (tfs_read (some j) n s'))
        (tfs_write (some k) buffer to_write s)
tfs_read-tfs_write {b} {e} s k j buffer to_write v ltk tk ltj tj ne same exists lt =
    Ends-mono (tfs_write-Written s k buffer to_write v ltk tk exists lt)
      (λ r s' w n. reads_back s k j buffer to_write ltj tj ne same r s' n w)
