-- ===== src/LinkFs/Witnesses.antt =====
-- The theorems on the file system with links at a concrete volume.
use so_project.Base.{
  ℕ, ◌+◌, ◌≡◌, ◌≢◌, inl, inr, Bool-cases, refl, true, false, none, some, [], ◌∷◌, ◌==◌, arith,
}
use so_project.Base.Monad.{Ends}
use so_project.Tfs.Types.{taken, bytes, TfsParams}
use so_project.Tfs.Operations.{tfs_o_creat, has_flag}
use so_project.LinkFs.Operations.{tfs_link, tfs_unlink, tfs_open, tfs_sym_link}
use so_project.LinkFs.Tables.{Malloc}
use so_project.LinkFs.SymLinked.{SymLinked, tfs_sym_link-SymLinked, tfs_open-tfs_sym_link}
use so_project.Protocol.Memory.{char_at, IsText}
use so_project.LinkFs.Link.{LinkResult, tfs_link-LinkResult}
use so_project.LinkFs.LinkLaws.{Linked, tfs_link-Linked}
use so_project.LinkFs.Unlink.{UnlinkResult, tfs_unlink-UnlinkResult}
use so_project.LinkFs.UnlinkLaws.{NameDropped, tfs_unlink-NameDropped}
use so_project.LinkFs.Follow.{tfs_open-Chain, tfs_open-cycle}
use so_project.LinkFs.Open.{prepared, start_offset, Opens}
use so_project.LinkFs.OpenLaws.{tfs_open_resolved, tfs_open-dangling}
use so_project.LinkFs.Created.{Made, tfs_open-Made}
use so_project.LinkFs.Valid.{IsValid}
use so_project.LinkFs.Example.{
  root_entries, path_block, inode_of, example_volume, example_volume-IsValid, path, b_to_a-Chain,
  c_to_c-Chain, d_to_e-Chain, no_flags, a_found, e_missing, path-valid, e_new,
}

tfs_link-LinkResult_example :
    Ends
      (LinkResult 0 root_entries (some (path 97)) (some (path 102)) example_volume)
      (tfs_link (some (path 97)) (some (path 102)) example_volume)
tfs_link-LinkResult_example =
    tfs_link-LinkResult example_volume (some (path 97)) (some (path 102)) example_volume-IsValid

tfs_link-Linked_example :
    Ends
      (Linked 0 root_entries (some (path 97)) (some (path 102)) example_volume)
      (tfs_link (some (path 97)) (some (path 102)) example_volume)
tfs_link-Linked_example =
    tfs_link-Linked example_volume (some (path 97)) (some (path 102)) example_volume-IsValid

tfs_unlink-UnlinkResult_example :
    Ends
      (UnlinkResult 0 root_entries (some (path 98)) example_volume)
      (tfs_unlink (some (path 98)) example_volume)
tfs_unlink-UnlinkResult_example =
    tfs_unlink-UnlinkResult example_volume (some (path 98)) example_volume-IsValid

tfs_unlink-NameDropped_example :
    Ends
      (NameDropped 0 root_entries (some (path 98)) example_volume)
      (tfs_unlink (some (path 98)) example_volume)
tfs_unlink-NameDropped_example =
    tfs_unlink-NameDropped example_volume (some (path 98)) example_volume-IsValid

tfs_open-Chain_example :
    tfs_open (1 + 5) (some (path 98)) 0 example_volume
    ≡ tfs_open 5 (some (path 97)) 0 example_volume
tfs_open-Chain_example =
    tfs_open-Chain example_volume example_volume-IsValid 0 no_flags 1 5 (path 98) (path 97)
      b_to_a-Chain

tfs_open-cycle_example : tfs_open 1000 (some (path 99)) 0 example_volume ≡ none
tfs_open-cycle_example =
    tfs_open-cycle example_volume example_volume-IsValid 0 no_flags 0 (path 99) c_to_c-Chain 1000

tfs_open_resolved_example :
    Ends
      (λ r s'.
        Opens 1 (start_offset 0 1 (prepared 0 1 example_volume)) (prepared 0 1 example_volume) r s'
        × IsValid 0 root_entries s')
      (tfs_open (1 + 1) (some (path 98)) 0 example_volume)
tfs_open_resolved_example =
    tfs_open_resolved example_volume example_volume-IsValid 0 1 (path 98) (path 97) 1 no_flags
      b_to_a-Chain a_found refl

tfs_open-dangling_example :
    tfs_open (1 + 1) (some (path 100)) 0 example_volume ≡ some (none, example_volume)
tfs_open-dangling_example =
    tfs_open-dangling example_volume example_volume-IsValid 0 1 (path 100) (path 101) no_flags
      d_to_e-Chain e_missing

tfs_open-Made_example :
    Ends
      (Made 0 root_entries (101 ∷ []) example_volume)
      (tfs_open 1 (some (path 101)) tfs_o_creat example_volume)
tfs_open-Made_example =
    tfs_open-Made example_volume example_volume-IsValid 0 (some (path 101)) tfs_o_creat path-valid
      refl e_new

other_blocks : (d : ℕ) → d ≢ 0 → (c : ℕ → ℕ) × (example_volume.fs_data d ≡ bytes c)
other_blocks d ne = elim (Bool-cases (d == 1)) [
  | inl first ↦ (path_block 97, ground arith)
  | inr other ↦ elim (Bool-cases (d == 2)) [
    | inl second ↦ (path_block 99, ground arith)
    | inr last ↦ (path_block 101, ground arith)
  ]
]

path_a-IsText : IsText (path 97)
unfolding char_at
path_a-IsText k lt = ground arith

tfs_sym_link-SymLinked_example :
    Ends
      (SymLinked 0 root_entries (path 97) (path 102) example_volume)
      (tfs_sym_link (some (path 97)) (some (path 102)) example_volume)
tfs_sym_link-SymLinked_example =
    tfs_sym_link-SymLinked example_volume example_volume-IsValid (path 97) (path 102) (omega arith)
      other_blocks

tfs_open-tfs_sym_link_example :
    Ends
      (λ r s'.
        r ≡ true
        → (fuel mode : ℕ) → has_flag mode tfs_o_creat ≡ false
        → tfs_open (1 + fuel) (some (path 102)) mode s' ≡ tfs_open fuel (some (path 97)) mode s')
      (tfs_sym_link (some (path 97)) (some (path 102)) example_volume)
tfs_open-tfs_sym_link_example =
    tfs_open-tfs_sym_link example_volume example_volume-IsValid (path 97) (path 102) (omega arith)
      other_blocks (omega arith) path_a-IsText

abbrev two_blocks : TfsParams
two_blocks = record {
  max_inode_count = 3;
  max_block_count = 2;
  max_open_files_count = 1;
  block_size = 100;
}

abbrev malloced : Malloc
malloced = record {
  inodes = some inode_of;
  inode_locks = some (λ i. false);
  inode_states = some (λ i. taken);
  blocks = some (λ k j. 0);
  block_states = some (λ k. taken);
  open_files = some (λ h. record { of_inumber = 0; of_offset = 0 });
  entry_locks = λ h. false;
  open_states = some (λ h. taken);
}
