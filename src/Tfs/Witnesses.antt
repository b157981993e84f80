-- ===== src/Tfs/Witnesses.antt =====
-- The theorems on the file system at concrete states.
use so_project.Base.{ℕ, ◌+◌, ◌<◌, ◌≡◌, refl, Option, none, some, [], ◌∷◌, Name, update, arith}
use so_project.Tfs.Types.{
  DirEntry, Inode, t_file, AllocationState, free, OpenFileEntry, TfsParams, Fs, cleared_entries,
}
use so_project.Base.Monad.{Ends}
use so_project.Tfs.State.{Malloc, free_all}
use so_project.Tfs.Operations.{
  tfs_open, tfs_close, tfs_write, tfs_read, tfs_unlink, tfs_o_creat, slice,
}
use so_project.Tfs.Valid.{Inv, IsValid}
use so_project.Tfs.DirUpdate.{used}
use so_project.Tfs.DirCalls.{with_entries}
use so_project.Tfs.Steps.{with_file, with_inode}
use so_project.Tfs.StepInv.{empty_file-FileOk, Inv-with_file, Inv-insert}
use so_project.Tfs.Handles.{Closes, tfs_close-Closes}
use so_project.Tfs.Open.{Opens, tfs_open-Opens}
use so_project.Tfs.OpenLaws.{Opened, tfs_open-Opened}
use so_project.Tfs.Unlink.{Unlinks, tfs_unlink-Unlinks, Unlinked, tfs_unlink-Unlinked}
use so_project.Tfs.WriteLaws.{Writes, tfs_write-Writes}
use so_project.Tfs.Contents.{Written, tfs_write-Written}
use so_project.Tfs.Read.{Read, tfs_read-Read}
use so_project.Tfs.RoundTrip.{tfs_read-tfs_write}
use so_project.Tfs.Init.{rooted, fresh, first_entries, rooted-Inv, no_names}

abbrev small : TfsParams
small = record {
  max_inode_count = 4;
  max_block_count = 4;
  max_open_files_count = 3;
  block_size = 132;
}

abbrev blank_inode : ℕ → Inode
blank_inode i = record { i_node_type = t_file; i_size = 0; i_data_block = none }

abbrev all_free : ℕ → AllocationState
all_free i = free

abbrev zeros : ℕ → ℕ → ℕ
zeros i k = 0

abbrev no_files : ℕ → OpenFileEntry
no_files h = record { of_inumber = 0; of_offset = 0 }

abbrev malloced : Malloc
malloced = record {
  inodes = some blank_inode;
  inode_states = some all_free;
  blocks = some zeros;
  block_states = some all_free;
  open_files = some no_files;
  open_states = some all_free;
}

abbrev pub empty : Fs
empty = rooted (fresh small blank_inode all_free zeros all_free no_files all_free)

abbrev pub no_entries : ℕ → DirEntry
no_entries = first_entries zeros

empty-Inv : Inv 0 no_entries empty
empty-Inv =
    rooted-Inv small blank_inode all_free zeros all_free no_files all_free (omega arith) refl
      (omega arith) (omega arith) (λ k. refl) (λ i le. refl) (λ h le. refl)

pub empty-IsValid : IsValid 0 no_entries empty
empty-IsValid = record { inv = empty-Inv; unlocked = refl }

abbrev name_a : Name
name_a = b'a' ∷ []

abbrev path_a : Option Name
path_a = some (b'/' ∷ name_a)

abbrev pub one_entry : ℕ → DirEntry
one_entry = update no_entries 0 (used name_a 1)

-- File 1 is named "a".
abbrev pub one_file : Fs
one_file = with_entries 0 one_entry (with_inode 1 empty)

one_file-Inv : Inv 0 one_entry one_file
unfolding free_all cleared_entries
one_file-Inv =
    Inv-insert empty-Inv 1 0 name_a
      (no_names small blank_inode all_free zeros all_free no_files all_free (omega arith) refl
        (omega arith) (omega arith) (λ k. refl) (λ i le. refl) (λ h le. refl) name_a 3 refl)
      (omega arith) refl (omega arith) refl (omega arith) (omega arith)

pub one_file-IsValid : IsValid 0 one_entry one_file
one_file-IsValid = record { inv = one_file-Inv; unlocked = refl }

-- Handles 0 and 1 are open on it.
abbrev two_handles : Fs
two_handles = with_file 1 1 0 (with_file 0 1 0 one_file)

two_handles-IsValid : IsValid 0 one_entry two_handles
unfolding free_all cleared_entries
two_handles-IsValid = record {
  inv =
      Inv-with_file
        (Inv-with_file one_file-Inv 0 1 0 (omega arith) (λ z. omega arith) (omega arith)
          (empty_file-FileOk 0 small))
        1 1 0 (omega arith) (λ z. omega arith) (omega arith) (empty_file-FileOk 0 small);
  unlocked = refl;
}

abbrev letters : ℕ → ℕ
letters p = p + 65

tfs_read-tfs_write_example :
    Ends
      (λ r s'.
        (n : ℕ)
        → r ≡ some n
        → 0 < n
        → Ends (λ q s''. q ≡ (some n, slice letters 0 n)) (tfs_read (some 0) n s'))
      (tfs_write (some 1) letters 5 two_handles)
tfs_read-tfs_write_example =
    tfs_read-tfs_write two_handles 1 0 letters 5 two_handles-IsValid (omega arith) refl
      (omega arith) refl (λ z. omega arith) refl refl (omega arith)

tfs_write-Written_example :
    Ends (Written 0 one_entry 0 letters 7 two_handles) (tfs_write (some 0) letters 7 two_handles)
tfs_write-Written_example =
    tfs_write-Written two_handles 0 letters 7 two_handles-IsValid (omega arith) refl refl
      (omega arith)

tfs_open-Opened_example :
    Ends (Opened 0 one_entry path_a two_handles) (tfs_open path_a 0 two_handles)
tfs_open-Opened_example = tfs_open-Opened two_handles path_a 0 two_handles-IsValid

tfs_unlink-Unlinked_example :
    Ends (Unlinked 0 one_entry path_a two_handles) (tfs_unlink path_a two_handles)
tfs_unlink-Unlinked_example = tfs_unlink-Unlinked two_handles path_a two_handles-IsValid

tfs_read-Read_example : Ends (Read 0 one_entry 1 9 two_handles) (tfs_read (some 1) 9 two_handles)
tfs_read-Read_example =
    tfs_read-Read two_handles 1 9 two_handles-IsValid (omega arith) refl (omega arith)

tfs_open-Opens_example :
    Ends (Opens 0 no_entries path_a tfs_o_creat empty) (tfs_open path_a tfs_o_creat empty)
tfs_open-Opens_example = tfs_open-Opens empty path_a tfs_o_creat empty-IsValid

tfs_write-Writes_example :
    Ends (Writes (some 2) letters 3 two_handles) (tfs_write (some 2) letters 3 two_handles)
tfs_write-Writes_example =
    tfs_write-Writes two_handles (some 2) letters 3 two_handles-IsValid (omega arith)

tfs_unlink-Unlinks_example :
    Ends (Unlinks 0 one_entry path_a two_handles) (tfs_unlink path_a two_handles)
tfs_unlink-Unlinks_example = tfs_unlink-Unlinks two_handles path_a two_handles-IsValid

tfs_close-Closes_example : Ends (Closes (some 1) two_handles) (tfs_close (some 1) two_handles)
tfs_close-Closes_example = tfs_close-Closes (some 1) two_handles refl
