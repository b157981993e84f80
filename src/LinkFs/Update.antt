-- ===== src/LinkFs/Update.antt =====
-- The states after a name is added to a file of fs/state.c, after one of several names is cleared,
-- and after the last one is: the invariant.
use so_project.Base.{
  ℕ, ◌<◌, ◌≡◌, refl, sym, ap, ◌∙◌, ◌≢◌, inl, inr, Bool, true, false, Option, none, some, update,
  update_self, ltb, Bool-cases, if◌then◌else◌, Name, length, arith,
}
use so_project.Base.Monad.{pure, ◌>>=◌, ◌>>◌, reads, modify, abort, branch, on_index, >>-eq}
use so_project.Tfs.Types.{max_file_name, DirEntry, AllocationState, free, taken, Block, entries}
use so_project.Tfs.Directory.{find_name, IsEntry}
use so_project.Tfs.DirUpdate.{used, blank, Names-add, Names-remove}
use so_project.LinkFs.Types.{Inode, Volume, max_dir_entries, lock, unlock}
use so_project.LinkFs.State.{
  valid_block_number, data_block_free, free_block, delete_taken, inode_delete,
}
use so_project.LinkFs.Operations.{links_up, links_down}
use so_project.LinkFs.Refs.{refs, refs-used, refs-blank, refs_le, refs_once}
use so_project.LinkFs.Valid.{Inv, Unlocked}
use so_project.LinkFs.Calls.{with_entries}

pub Inv-locks :
    {b : ℕ} {e : ℕ → DirEntry} {s : Volume} (l : ℕ → Bool)
    → Inv b e s
    → Inv b e (record s { inode_rwl = l })
Inv-locks l v = record {
  root = record {
    root_in = v.root.root_in;
    root_taken = v.root.root_taken;
    root_type = v.root.root_type;
    root_block = v.root.root_block;
    block_in = v.root.block_in;
    block_taken = v.root.block_taken;
    block_entries = v.root.block_entries;
    few = v.root.few;
  };
  names = v.names;
  links = record {
    listed = v.links.listed;
    counts = v.links.counts;
    no_orphan = v.links.no_orphan;
    apart = v.links.apart;
  };
}

-- The locks do not depend on the tables.
pub Unlocked-tables :
    {s : Volume} (inodes : ℕ → Inode) (states : ℕ → AllocationState) (blocks : ℕ → Block)
    (block_states : ℕ → AllocationState)
    → Unlocked s
    → Unlocked (record s {
      inode_table = inodes;
      freeinode_ts = states;
      fs_data = blocks;
      free_blocks = block_states;
    })
Unlocked-tables inodes states blocks block_states u = record {
  inodes_free = u.inodes_free;
  table_free = u.table_free;
  blocks_free = u.blocks_free;
  files_free = u.files_free;
  entries_free = u.entries_free;
}

abbrev set_links : ℕ → ℕ → Volume → Volume
set_links i n s = record s {
  inode_table = update s.inode_table i (record (s.inode_table i) { i_links_count = n });
}

-- The state after the entry `j` is filled with another name of the file `i`.
abbrev pub linked : ℕ → (ℕ → DirEntry) → ℕ → Name → ℕ → Volume → Volume
linked b e j name i s =
    set_links i (links_up (s.inode_table i).i_links_count)
      (with_entries b (update e j (used name i)) s)

-- The state after the entry `k` is cleared, and its file `i` has other names.
abbrev pub dropped : ℕ → (ℕ → DirEntry) → ℕ → ℕ → Volume → Volume
dropped b e k i s =
    set_links i (links_down (s.inode_table i).i_links_count) (with_entries b (update e k blank) s)

-- The blocks after one is freed, if there is one.
abbrev given_up : Option ℕ → ℕ → (ℕ → AllocationState) → ℕ → AllocationState
given_up none max blocks = blocks
given_up (some d) max blocks = if ltb d max then update blocks d free else blocks

-- The blocks after the inode `n` has given up its own, if it has one.
abbrev pub without_block : Inode → Volume → ℕ → AllocationState
without_block n s =
    if ltb 0 n.i_size
    then given_up n.i_data_block s.fs_params.max_block_count s.free_blocks
    else s.free_blocks

abbrev pub delete_inode : ℕ → Volume → Volume
delete_inode i s = record s {
  freeinode_ts = update s.freeinode_ts i free;
  free_blocks = without_block (s.inode_table i) s;
}

-- The state after the entry `k` is cleared, and its file `i` is deleted.
abbrev pub removed : ℕ → (ℕ → DirEntry) → ℕ → ℕ → Volume → Volume
removed b e k i s = delete_inode i (with_entries b (update e k blank) s)

module _ {b : ℕ} {e : ℕ → DirEntry} {s : Volume} (v : Inv b e s) where
  pub Inv-linked :
      (j i : ℕ) (name : Name)
      → j < max_dir_entries s
      → (e j).d_inumber ≡ none
      → i < s.fs_params.max_inode_count
      → i ≢ 0
      → s.freeinode_ts i ≡ taken
      → 0 < length name
      → length name < max_file_name
      → find_name e (max_dir_entries s) name ≡ none
      → Inv b (update e j (used name i)) (linked b e j name i s)
  Inv-linked j i name ltj fj lti nz t long short new =
      let e' = update e j (used name i) in
      record {
        root = record {
          root_in = v.root.root_in;
          root_taken = v.root.root_taken;
          root_type = ground (arith, v.root.root_type);
          root_block = ground (arith, v.root.root_block);
          block_in = v.root.block_in;
          block_taken = v.root.block_taken;
          block_entries = update_self s.fs_data b (entries e');
          few = v.root.few;
        };
        names = Names-add v.names j i name ltj fj long short new;
        links = record {
          listed = λ k x lt q. ground (arith, v.links.listed k x);
          counts = λ x nzx ltx tx.
              let old = v.links.counts x nzx ltx tx in
              let count = refs-used (max_dir_entries s) e j i name x ltj fj in
              let bound = refs_le (max_dir_entries s) e' x in let few = v.root.few in ground arith;
          no_orphan = λ x nzx ltx tx.
              let old = v.links.no_orphan x nzx ltx tx in
              let count = refs-used (max_dir_entries s) e j i name x ltj fj in omega arith;
          apart = λ x nzx ltx tx. ground (arith, v.links.apart x nzx ltx tx);
        };
      }

  pub Inv-dropped :
      (k i : ℕ) (name : Name)
      → IsEntry e (max_dir_entries s) name i k
      → (s.inode_table i).i_links_count ≢ 1
      → Inv b (update e k blank) (dropped b e k i s)
  Inv-dropped k i name h more =
      let e' = update e k blank in
      let (lti, nz, t) = v.links.listed k i h.0 h.1 in
      let n = max_dir_entries s in
      let here = v.links.counts i nz lti t in
      record {
        root = record {
          root_in = v.root.root_in;
          root_taken = v.root.root_taken;
          root_type = ground (arith, v.root.root_type);
          root_block = ground (arith, v.root.root_block);
          block_in = v.root.block_in;
          block_taken = v.root.block_taken;
          block_entries = update_self s.fs_data b (entries e');
          few = v.root.few;
        };
        names = Names-remove v.names k i name h;
        links = record {
          listed = λ l x lt q. ground (arith, v.links.listed l x);
          counts = λ x nzx ltx tx.
              let old = v.links.counts x nzx ltx tx in
              let count = refs-blank n e k i x h.0 h.1 in
              let bound = refs_le n e x in let few = v.root.few in ground arith;
          no_orphan = λ x nzx ltx tx.
              let old = v.links.no_orphan x nzx ltx tx in
              let count = refs-blank n e k i x h.0 h.1 in ground arith;
          apart = λ x nzx ltx tx. ground (arith, v.links.apart x nzx ltx tx);
        };
      }

  pub Inv-removed :
      (k i : ℕ) (name : Name)
      → IsEntry e (max_dir_entries s) name i k
      → (s.inode_table i).i_links_count ≡ 1
      → Inv b (update e k blank) (removed b e k i s)
  Inv-removed k i name h last =
      let e' = update e k blank in
      let (lti, nz, t) = v.links.listed k i h.0 h.1 in
      let n = max_dir_entries s in
      let once : refs n e i ≡ 1 = sym (v.links.counts i nz lti t) ∙ last in
      record {
        root = record {
          root_in = v.root.root_in;
          root_taken = ground (arith, v.root.root_taken);
          root_type = v.root.root_type;
          root_block = v.root.root_block;
          block_in = v.root.block_in;
          block_taken = ground (arith, v.root.block_taken, v.links.apart i nz lti t);
          block_entries = update_self s.fs_data b (entries e');
          few = v.root.few;
        };
        names = Names-remove v.names k i name h;
        links = record {
          listed = λ l x lt q. ground (arith, v.links.listed l x, refs_once n e i k l once);
          counts = λ x nzx ltx tx.
              let count = refs-blank n e k i x h.0 h.1 in ground (arith, v.links.counts x nzx ltx);
          no_orphan = λ x nzx ltx tx.
              let count = refs-blank n e k i x h.0 h.1 in
              ground (arith, v.links.no_orphan x nzx ltx);
          apart = λ x nzx ltx tx. ground (arith, v.links.apart x nzx ltx);
        };
      }

pub data_block_free-eq :
    (o : Option ℕ) (s : Volume)
    → s.free_blocks_rwl ≡ false
    → data_block_free o s
      ≡ some (
        valid_block_number o s,
        record s { free_blocks = given_up o s.fs_params.max_block_count s.free_blocks },
      )
unfolding data_block_free free_block lock unlock ◌>>=◌ ◌>>◌ reads branch modify pure abort on_index
data_block_free-eq none s u = refl
data_block_free-eq (some d) s u = ground (
  arith,
  ap {B = Option (Bool × Volume)}
      (λ x.
        some (true, record s { free_blocks = update s.free_blocks d free; free_blocks_rwl = x }))
      (sym u),
)

-- The block of the inode `n` is freed, if it has one.
free_own-eq :
    (n : Inode) (s : Volume)
    → s.free_blocks_rwl ≡ false
    → branch (ltb 0 n.i_size) (do data_block_free n.i_data_block; pure tt) (pure tt) s
      ≡ some (tt, record s { free_blocks = without_block n s })
unfolding branch pure
free_own-eq n s u = elim (Bool-cases (ltb 0 n.i_size)) [
  | inl used_block ↦ rw used_block (>>-eq _ _ s (data_block_free-eq n.i_data_block s u))
  | inr empty ↦ rw empty
]

delete_taken-eq :
    (i : ℕ) (s : Volume)
    → s.inode_table_rwl ≡ false
    → s.free_blocks_rwl ≡ false
    → delete_taken i (record s { inode_table_rwl = true }) ≡ some (true, delete_inode i s)
unfolding delete_taken unlock ◌>>=◌ ◌>>◌ reads modify pure
delete_taken-eq i s t u = ground (
  arith,
  free_own-eq (s.inode_table i) (record s { inode_table_rwl = true }) u,
  ap {B = Option (Bool × Volume)}
      (λ x. some (true, record (delete_inode i s) { inode_table_rwl = x })) (sym t),
)

pub inode_delete-eq :
    (i : ℕ) (s : Volume)
    → s.inode_table_rwl ≡ false
    → s.free_blocks_rwl ≡ false
    → i < s.fs_params.max_inode_count
    → s.freeinode_ts i ≡ taken
    → inode_delete i s ≡ some (true, delete_inode i s)
unfolding inode_delete lock ◌>>=◌ ◌>>◌ reads branch modify abort
inode_delete-eq i s tf bf lt t = ground (arith, delete_taken-eq i s tf bf, tf)
