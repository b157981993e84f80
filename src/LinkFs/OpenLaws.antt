-- ===== src/LinkFs/OpenLaws.antt =====
-- `tfs_open` of fs/operations.c on a path that names a file, straight or by symbolic links: the
-- handle, and the invariant.
use so_project.Base.{
  ℕ, zero, suc, ◌+◌, ◌<◌, ◌≡◌, refl, ap, ◌∙◌, ◌≢◌, ◌&&◌, inl, inr, true, false, Option, none, some,
  update, ltb, Bool-cases, Name, arith,
}
use so_project.Base.Monad.{pure, branch, on_index, Ends, Ends-mono, >>=-eq, >>-eq}
use so_project.Tfs.Types.{DirEntry, taken}
use so_project.Tfs.Operations.{valid_pathname, has_flag, tfs_o_creat, tfs_o_trunc}
use so_project.LinkFs.Types.{Volume, V}
use so_project.LinkFs.Operations.{is_link, open_valid, tfs_open}
use so_project.LinkFs.Valid.{Inv, IsValid}
use so_project.LinkFs.Calls.{
  locked, lock_inode-eq, unlock-locked, unlock_return-eq, inode_get-eq, tfs_lookup-eq,
}
use so_project.LinkFs.Update.{Inv-locks}
use so_project.LinkFs.Link.{lookup, lookup_listed}
use so_project.LinkFs.Follow.{Chain, open_valid-existing, tfs_open-Chain}
use so_project.LinkFs.Open.{
  truncated, prepared, start_offset, with_file, Opens, too_many, opens, prepared-Unlocked,
  open_existing-Opens,
}

module _ {b : ℕ} {e : ℕ → DirEntry} where
  Inv-truncated :
      {s : Volume} (i : ℕ)
      → Inv b e s
      → i ≢ 0
      → i < s.fs_params.max_inode_count
      → s.freeinode_ts i ≡ taken
      → Inv b e (truncated i s)
  Inv-truncated {s} i v nz lt t = record {
    root = record {
      root_in = v.root.root_in;
      root_taken = v.root.root_taken;
      root_type = ground (arith, v.root.root_type);
      root_block = ground (arith, v.root.root_block);
      block_in = v.root.block_in;
      block_taken = ground (arith, v.root.block_taken, v.links.apart i nz lt t);
      block_entries = v.root.block_entries;
      few = v.root.few;
    };
    names = v.names;
    links = record {
      listed = λ k x ltk q. v.links.listed k x ltk q;
      counts = λ x nzx ltx tx. ground (arith, v.links.counts x nzx ltx tx);
      no_orphan = λ x nzx ltx tx. v.links.no_orphan x nzx ltx tx;
      apart = λ x nzx ltx tx. ground (arith, v.links.apart x nzx ltx tx);
    };
  }

  Inv-prepared :
      {s : Volume} (mode i : ℕ)
      → Inv b e s
      → i ≢ 0
      → i < s.fs_params.max_inode_count
      → s.freeinode_ts i ≡ taken
      → Inv b e (prepared mode i s)
  Inv-prepared {s} mode i v nz lt t =
      elim (Bool-cases (has_flag mode tfs_o_trunc && ltb 0 (s.inode_table i).i_size)) [
        | inr no_need ↦ rw no_need v
        | inl asked ↦ rw asked (Inv-truncated i v nz lt t)
      ]

  IsValid-files :
      {s : Volume} (h i offset : ℕ) → IsValid b e s → IsValid b e (with_file h i offset s)
  IsValid-files {s} h i offset v = record {
    inv = record {
      root = record {
        root_in = v.inv.root.root_in;
        root_taken = v.inv.root.root_taken;
        root_type = v.inv.root.root_type;
        root_block = v.inv.root.root_block;
        block_in = v.inv.root.block_in;
        block_taken = v.inv.root.block_taken;
        block_entries = v.inv.root.block_entries;
        few = v.inv.root.few;
      };
      names = v.inv.names;
      links = record {
        listed = v.inv.links.listed;
        counts = v.inv.links.counts;
        no_orphan = v.inv.links.no_orphan;
        apart = v.inv.links.apart;
      };
    };
    unlocked = record {
      inodes_free = v.unlocked.inodes_free;
      table_free = v.unlocked.table_free;
      blocks_free = v.unlocked.blocks_free;
      files_free = v.unlocked.files_free;
      entries_free = v.unlocked.entries_free;
    };
  }

  pub IsValid-Opens :
      {s : Volume} {i offset : ℕ} (r : Option ℕ) (s' : Volume)
      → IsValid b e s
      → Opens i offset s r s'
      → IsValid b e s'
  IsValid-Opens r s' v (too_many all er es) = rw es v
  IsValid-Opens {i} {offset} r s' v (opens h lt q least er es) = rw es (IsValid-files h i offset v)

module _ {b : ℕ} {e : ℕ → DirEntry} (s : Volume) (v : IsValid b e s) (mode : ℕ) where
  open_named :
      (fuel : ℕ) (name : Name) (i : ℕ)
      → lookup e (some name) s ≡ some i
      → is_link (s.inode_table i).i_node_type ≡ false
      → let t = prepared mode i s in
        Ends
          (λ r s'. Opens i (start_offset mode i t) t r s' × IsValid b e s')
          (tfs_open (suc fuel) (some name) mode s)
  unfolding tfs_open branch
  open_named fuel name i q plain =
      let (valid, k, h, lt, nz, t) = lookup_listed v.inv v.unlocked (some name) i q in
      let m : Name → V (Option ℕ) = λ target. tfs_open fuel (some target) mode in
      let ready : IsValid b e (prepared mode i s) = record {
        inv = Inv-prepared mode i v.inv nz lt t;
        unlocked = prepared-Unlocked v.inv v.unlocked mode i;
      } in
      rw (valid, open_valid-existing v.inv v.unlocked m (some name) mode i q)
        (Ends-mono (open_existing-Opens v.inv v.unlocked m mode i lt plain)
          (λ r s' o. (o, IsValid-Opens r s' ready o)))

  open_missing :
      (fuel : ℕ) (name : Name)
      → has_flag mode tfs_o_creat ≡ false
      → lookup e (some name) s ≡ none
      → tfs_open (suc fuel) (some name) mode s ≡ some (none, s)
  unfolding tfs_open branch pure open_valid on_index
  open_missing fuel name flag q = elim (Bool-cases (valid_pathname (some name))) [
    | inr bad ↦ rw bad refl
    | inl ok ↦
        let r = (Inv-locks (update s.inode_rwl 0 true) v.inv).root in
        rw ok (
          >>=-eq _ _ s (inode_get-eq 0 s v.inv.root.root_in)
          ∙ >>-eq _ _ s (lock_inode-eq 0 s (v.unlocked.inodes_free 0))
          ∙ >>=-eq _ _ (locked 0 s) (tfs_lookup-eq r (some name) ∙ ap (λ o. some (o, locked 0 s)) q)
          ∙ rw flag (unlock_return-eq 0 none (locked 0 s))
          ∙ ap (λ t. some (none, t)) (unlock-locked 0 s (v.unlocked.inodes_free 0)))
  ]

  -- On a valid volume, without O_CREAT, a path that leads over `n` symbolic links to a file `i` is
  -- opened with `n + 1` levels of the recursion: the file is truncated if that is asked for, and the
  -- first free entry of the open file table is a handle on it, at its end or its start; with no free
  -- entry, there is no handle. The volume stays valid.
  pub tfs_open_resolved :
      (n : ℕ) (name last : Name) (i : ℕ)
      → has_flag mode tfs_o_creat ≡ false
      → Chain e s n name last
      → lookup e (some last) s ≡ some i
      → is_link (s.inode_table i).i_node_type ≡ false
      → let t = prepared mode i s in
        Ends
          (λ r s'. Opens i (start_offset mode i t) t r s' × IsValid b e s')
          (tfs_open (n + 1) (some name) mode s)
  tfs_open_resolved n name last i flag c q plain =
      rw (tfs_open-Chain s v mode flag n 1 name last c) (open_named zero last i q plain)

  -- On a valid volume, without O_CREAT, a path that leads over `n` symbolic links to a name that is
  -- not there is refused, with `n + 1` levels of the recursion, and nothing is changed.
  pub tfs_open-dangling :
      (n : ℕ) (name last : Name)
      → has_flag mode tfs_o_creat ≡ false
      → Chain e s n name last
      → lookup e (some last) s ≡ none
      → tfs_open (n + 1) (some name) mode s ≡ some (none, s)
  tfs_open-dangling n name last flag c q =
      tfs_open-Chain s v mode flag n 1 name last c ∙ open_missing zero last flag q
