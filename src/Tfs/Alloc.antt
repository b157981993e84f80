-- ===== src/Tfs/Alloc.antt =====
-- The loops of fs2/state.c that look for a free slot: what they return, and what they change.
use so_project.Base.{
  ℕ, ◌<◌, ◌≡◌, refl, true, false, Option, none, some, inl, inr, update, first_index-Found,
}
use so_project.Tfs.Types.{AllocationState, free, taken, Fs, is_free}
use so_project.Base.Monad.{pure, ◌>>=◌, ◌>>◌, reads, modify, on_index, Ends, ends}
use so_project.Tfs.State.{inode_alloc, data_block_alloc, add_to_open_file_table}

pub is_free→eq : (a : AllocationState) → is_free a ≡ true → a ≡ free
is_free→eq free h = refl
is_free→eq taken h = cc

pub not_is_free→eq : (a : AllocationState) → is_free a ≡ false → a ≡ taken
not_is_free→eq free h = cc
not_is_free→eq taken h = refl

-- A search of `n` slots either finds all of them taken and changes nothing, or takes the first
-- free one.
pub data Takes (slots : ℕ → AllocationState) (n : ℕ) (s : Fs) (change : ℕ → Fs) (r : Option ℕ)
    (s' : Fs) : Type 0 where
  full : r ≡ none → s' ≡ s → ((j : ℕ) → j < n → slots j ≡ taken) → Takes slots n s change r s'
  took :
      (i : ℕ)
      → r ≡ some i
      → s' ≡ change i
      → i < n
      → slots i ≡ free
      → ((j : ℕ) → j < i → slots j ≡ taken)
      → Takes slots n s change r s'

-- `inode_alloc` returns: it takes the first free inode and changes nothing else, or, when all are
-- taken, it fails and changes nothing.
pub inode_alloc-Takes :
    (s : Fs)
    → Ends
        (Takes s.freeinode_ts s.fs_params.max_inode_count s
          (λ i. record s { freeinode_ts = update s.freeinode_ts i taken }))
        (inode_alloc s)
unfolding inode_alloc ◌>>=◌ ◌>>◌ reads modify pure on_index
inode_alloc-Takes s =
    elim (first_index-Found (λ i. is_free (s.freeinode_ts i)) s.fs_params.max_inode_count) [
      | inl (e, all) ↦ rw e (ends none s (full refl refl (λ j h. not_is_free→eq _ (all j h))))
      | inr (i, e, lt, t, m) ↦
          rw e (
            ends (some i) _
              (took i refl refl lt (is_free→eq _ t) (λ j h. not_is_free→eq _ (m j h))))
    ]

-- `data_block_alloc` returns: it takes the first free block and changes nothing else, or, when all
-- are taken, it fails and changes nothing.
pub data_block_alloc-Takes :
    (s : Fs)
    → Ends
        (Takes s.free_blocks s.fs_params.max_block_count s
          (λ i. record s { free_blocks = update s.free_blocks i taken }))
        (data_block_alloc s)
unfolding data_block_alloc ◌>>=◌ ◌>>◌ reads modify pure on_index
data_block_alloc-Takes s =
    elim (first_index-Found (λ i. is_free (s.free_blocks i)) s.fs_params.max_block_count) [
      | inl (e, all) ↦ rw e (ends none s (full refl refl (λ j h. not_is_free→eq _ (all j h))))
      | inr (i, e, lt, t, m) ↦
          rw e (
            ends (some i) _
              (took i refl refl lt (is_free→eq _ t) (λ j h. not_is_free→eq _ (m j h))))
    ]

pub add_to_open_file_table-Takes :
    (inumber offset : ℕ) (s : Fs)
    → Ends
        (Takes s.free_open_file_entries s.fs_params.max_open_files_count s (λ i. record s {
          free_open_file_entries = update s.free_open_file_entries i taken;
          open_file_table =
              update s.open_file_table i (record { of_inumber = inumber; of_offset = offset });
        }))
        (add_to_open_file_table inumber offset s)
unfolding add_to_open_file_table ◌>>=◌ ◌>>◌ reads modify pure on_index
add_to_open_file_table-Takes inumber offset s =
    elim (first_index-Found (λ i. is_free (s.free_open_file_entries i))
      s.fs_params.max_open_files_count) [
        | inl (e, all) ↦ rw e (ends none s (full refl refl (λ j h. not_is_free→eq _ (all j h))))
        | inr (i, e, lt, t, m) ↦ rw e (
            ends (some i) _
              (took i refl refl lt (is_free→eq _ t) (λ j h. not_is_free→eq _ (m j h))))
      ]
