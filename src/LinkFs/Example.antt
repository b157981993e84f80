-- ===== src/LinkFs/Example.antt =====
-- A volume of fs/ with a file and three symbolic links.
use so_project.Base.{
  ℕ, ◌≡◌, refl, true, false, none, some, [], ◌∷◌, Name, ◌==◌, if◌then◌else◌, str_eq, c_string,
  first_index, arith,
}
use so_project.Tfs.Types.{DirEntry, free, taken, bytes, entries}
use so_project.Tfs.Operations.{valid_pathname, base_name, tfs_o_creat, has_flag}
use so_project.Tfs.Valid.{Names}
use so_project.Tfs.Directory.{find_name}
use so_project.Tfs.DirUpdate.{used, blank}
use so_project.LinkFs.Types.{t_file, t_directory, t_link, Inode, Volume}
use so_project.LinkFs.Refs.{refs}
use so_project.LinkFs.Link.{lookup}
use so_project.LinkFs.Follow.{Follows, Chain, stop, follow}
use so_project.LinkFs.Valid.{IsValid}

-- /a is a file, /b is a link to /a, /c is a link to itself, and /d is a link to /e, which is not
-- there; an entry and an inode are free.
abbrev pub root_entries : ℕ → DirEntry
root_entries k =
    if k == 0
    then used (97 ∷ []) 1
    else (if k == 1
        then used (98 ∷ []) 2
        else (if k == 2 then used (99 ∷ []) 3 else (if k == 3 then used (100 ∷ []) 4 else blank)))

abbrev pub path_block : ℕ → ℕ → ℕ
path_block c k = if k == 0 then 47 else (if k == 1 then c else 0)

abbrev pub inode_of : ℕ → Inode
inode_of i =
    if i == 0
    then record {
      i_node_type = t_directory;
      i_links_count = 1;
      i_size = 220;
      i_data_block = some 0;
    }
    else (if i == 1
        then record { i_node_type = t_file; i_links_count = 1; i_size = 0; i_data_block = none }
        else record {
          i_node_type = t_link;
          i_links_count = 1;
          i_size = 0;
          i_data_block = if i == 2 then some 1 else (if i == 3 then some 2 else some 3);
        })

abbrev pub example_volume : Volume
example_volume = record {
  fs_params = record {
    max_inode_count = 6;
    max_block_count = 5;
    max_open_files_count = 2;
    block_size = 220;
  };
  inode_table = inode_of;
  inode_rwl = λ i. false;
  freeinode_ts = λ i. if i == 5 then free else taken;
  inode_table_rwl = false;
  fs_data = λ k.
      if k == 0
      then entries root_entries
      else (if k == 1
          then bytes (path_block 97)
          else (if k == 2 then bytes (path_block 99) else bytes (path_block 101)));
  free_blocks = λ k. if k == 4 then free else taken;
  free_blocks_rwl = false;
  open_file_table = λ h. record { of_inumber = 0; of_offset = 0 };
  entry_lock = λ h. false;
  free_open_file_entries = λ h. free;
  open_file_table_rwl = false;
}

example_volume-Names : Names 5 root_entries
example_volume-Names = record {
  named = λ k i lt h. ground arith;
  blank = λ k lt h. ground arith;
  same_name = λ k l i j ltk ltl hk hl q. ground arith;
}

refs_at :
    (i : ℕ)
    → refs 5 root_entries i ≡ (
        if i == 1
        then 1
        else (if i == 2 then 1 else (if i == 3 then 1 else (if i == 4 then 1 else 0))))
unfolding refs
refs_at i = ground arith

pub example_volume-IsValid : IsValid 0 root_entries example_volume
example_volume-IsValid = record {
  inv = record {
    root = record {
      root_in = omega arith;
      root_taken = refl;
      root_type = refl;
      root_block = refl;
      block_in = omega arith;
      block_taken = refl;
      block_entries = refl;
      few = omega arith;
    };
    names = example_volume-Names;
    links = record {
      listed = λ k i lt h. (ground arith, ground arith, ground arith);
      counts = λ i nz lt t. ground (arith, refs_at i);
      no_orphan = λ i nz lt t. ground (arith, refs_at i);
      apart = λ i nz lt t size q. ground arith;
    };
  };
  unlocked = record {
    inodes_free = λ i. refl;
    table_free = refl;
    blocks_free = refl;
    files_free = refl;
    entries_free = λ k. refl;
  };
}

abbrev pub path : ℕ → Name
path c = 47 ∷ c ∷ []

b_to_a : Follows root_entries example_volume (path 98) (path 97)
unfolding find_name first_index str_eq valid_pathname c_string
b_to_a = record {
  link = 2;
  found = refl;
  is_symbolic = refl;
  block = 1;
  link_block = refl;
  block_in = omega arith;
  content = path_block 97;
  block_bytes = refl;
  path = refl;
  fits = omega arith;
  short = omega arith;
}

c_to_c : Follows root_entries example_volume (path 99) (path 99)
unfolding find_name first_index str_eq valid_pathname c_string
c_to_c = record {
  link = 3;
  found = refl;
  is_symbolic = refl;
  block = 2;
  link_block = refl;
  block_in = omega arith;
  content = path_block 99;
  block_bytes = refl;
  path = refl;
  fits = omega arith;
  short = omega arith;
}

d_to_e : Follows root_entries example_volume (path 100) (path 101)
unfolding find_name first_index str_eq valid_pathname c_string
d_to_e = record {
  link = 4;
  found = refl;
  is_symbolic = refl;
  block = 3;
  link_block = refl;
  block_in = omega arith;
  content = path_block 101;
  block_bytes = refl;
  path = refl;
  fits = omega arith;
  short = omega arith;
}

pub b_to_a-Chain : Chain root_entries example_volume 1 (path 98) (path 97)
b_to_a-Chain = follow 0 (path 98) (path 97) (path 97) b_to_a (stop (path 97))

pub c_to_c-Chain : Chain root_entries example_volume 1 (path 99) (path 99)
c_to_c-Chain = follow 0 (path 99) (path 99) (path 99) c_to_c (stop (path 99))

pub d_to_e-Chain : Chain root_entries example_volume 1 (path 100) (path 101)
d_to_e-Chain = follow 0 (path 100) (path 101) (path 101) d_to_e (stop (path 101))

pub no_flags : has_flag 0 tfs_o_creat ≡ false
no_flags = refl

pub a_found : lookup root_entries (some (path 97)) example_volume ≡ some 1
unfolding find_name first_index str_eq valid_pathname
a_found = refl

pub e_missing : lookup root_entries (some (path 101)) example_volume ≡ none
unfolding find_name first_index str_eq valid_pathname
e_missing = refl

pub path-valid : valid_pathname (some (path 101)) ≡ true
unfolding valid_pathname
path-valid = refl

pub e_new : find_name root_entries 5 (base_name (some (path 101))) ≡ none
unfolding find_name first_index str_eq
e_new = refl
