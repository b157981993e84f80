-- ===== src/LinkFs/SymLinked.antt =====
-- `tfs_sym_link` of fs/operations.c: the invariant, the names, and the path in the link.
use so_project.Base.{
  ℕ, ◌+◌, ◌<◌, ◌≡◌, refl, sym, ap, ◌∙◌, ◌≢◌, Bool, true, false, none, some, update, update_self,
  if_true, if_false, Name, length, c_string, take_all, str_eq, str_eq_refl, arith,
}
use mathlib.Core.Bool.{false≢true}
use so_project.Base.Monad.{Ends, Ends-mono}
use so_project.Tfs.Types.{max_file_name, DirEntry, free, taken, Block, bytes, entries}
use so_project.Tfs.Operations.{valid_pathname, base_name, has_flag, tfs_o_creat}
use so_project.Tfs.Directory.{find_name}
use so_project.Tfs.DirUpdate.{used, Names-add, find_name-add}
use so_project.Protocol.Memory.{IsText, c_string-char_at}
use so_project.LinkFs.Types.{Inode, Volume, max_dir_entries}
use so_project.LinkFs.Operations.{is_link, tfs_sym_link, tfs_open}
use so_project.LinkFs.Refs.{refs, refs-used, refs_none}
use so_project.LinkFs.Valid.{Inv, IsValid}
use so_project.LinkFs.Calls.{with_entries}
use so_project.LinkFs.Update.{Unlocked-tables}
use so_project.LinkFs.Link.{lookup}
use so_project.LinkFs.Follow.{Follows, stop, follow, tfs_open-Chain}
use so_project.LinkFs.SymLink.{
  PathResult, no_block, no_entry, points, stored, link_node, sym_linked,
}
use so_project.LinkFs.SymLinkLaws.{
  SymLinkResult, invalid, no_target, name_taken, no_inode, tried, tfs_sym_link-SymLinkResult,
}

module _ {b : ℕ} {e : ℕ → DirEntry} {s : Volume} (v : Inv b e s) (i : ℕ)
    (i_free : s.freeinode_ts i ≡ free) where
  off_root : i ≢ 0
  off_root z = ground (arith, v.root.root_taken)

  -- A free inode is written.
  Inv-node : (x : Inode) → Inv b e (record s { inode_table = update s.inode_table i x })
  Inv-node x =
      let nz = off_root in
      record {
        root = record {
          root_in = v.root.root_in;
          root_taken = v.root.root_taken;
          root_type = ground (arith, v.root.root_type);
          root_block = ground (arith, v.root.root_block);
          block_in = v.root.block_in;
          block_taken = v.root.block_taken;
          block_entries = v.root.block_entries;
          few = v.root.few;
        };
        names = v.names;
        links = record {
          listed = v.links.listed;
          counts = λ x nzx ltx tx. ground (arith, v.links.counts x nzx ltx tx);
          no_orphan = v.links.no_orphan;
          apart = λ x nzx ltx tx. ground (arith, v.links.apart x nzx ltx tx);
        };
      }

  -- A free inode with no size is taken, and named by the entry `j`.
  Inv-named :
      (j : ℕ) (name : Name)
      → (s.inode_table i).i_links_count ≡ 1
      → (s.inode_table i).i_size ≡ 0
      → j < max_dir_entries s
      → (e j).d_inumber ≡ none
      → i < s.fs_params.max_inode_count
      → 0 < length name
      → length name < max_file_name
      → find_name e (max_dir_entries s) name ≡ none
      → Inv b (update e j (used name i)) (
          with_entries b
            (update e j (used name i))
            (record s { freeinode_ts = update s.freeinode_ts i taken }))
  Inv-named j name one empty ltj fr lti long short new =
      let nz = off_root in
      let none_before : refs (max_dir_entries s) e i ≡ 0 =
        refs_none (max_dir_entries s) e i
          (λ k lt h. let (_, _, t) = v.links.listed k i lt h in ground arith) in
      record {
        root = record {
          root_in = v.root.root_in;
          root_taken = ground (arith, v.root.root_taken);
          root_type = v.root.root_type;
          root_block = v.root.root_block;
          block_in = v.root.block_in;
          block_taken = v.root.block_taken;
          block_entries = update_self s.fs_data b (entries (update e j (used name i)));
          few = v.root.few;
        };
        names = Names-add v.names j i name ltj fr long short new;
        links = record {
          listed = λ k x lt h. ground (arith, v.links.listed k x);
          counts = λ x nzx ltx tx.
              let count = refs-used (max_dir_entries s) e j i name x ltj fr in
              ground (arith, v.links.counts x nzx ltx);
          no_orphan = λ x nzx ltx tx.
              let count = refs-used (max_dir_entries s) e j i name x ltj fr in
              ground (arith, v.links.no_orphan x nzx ltx);
          apart = λ x nzx ltx tx. ground (arith, v.links.apart x nzx ltx);
        };
      }

-- A free block is taken and written.
Inv-block :
    {b : ℕ} {e : ℕ → DirEntry} {s : Volume} (v : Inv b e s) (d : ℕ) (x : Block)
    → s.free_blocks d ≡ free
    → Inv b e
        (record s { free_blocks = update s.free_blocks d taken; fs_data = update s.fs_data d x })
Inv-block v d x q = record {
  root = record {
    root_in = v.root.root_in;
    root_taken = v.root.root_taken;
    root_type = v.root.root_type;
    root_block = v.root.root_block;
    block_in = v.root.block_in;
    block_taken = ground (arith, v.root.block_taken);
    block_entries = ground (arith, v.root.block_entries, v.root.block_taken);
    few = v.root.few;
  };
  names = v.names;
  links = record {
    listed = v.links.listed;
    counts = v.links.counts;
    no_orphan = v.links.no_orphan;
    apart = v.links.apart;
  };
}

-- After `tfs_sym_link`, for the root directory `e` before it.
pub record SymLinked (b : ℕ) (e : ℕ → DirEntry) (target : Name) (link_name : Name) (s : Volume)
    (r : Bool) (s' : Volume) : Type 0 where
  pub outcome : SymLinkResult b e target (some link_name) s r s'
  pub entries_after : ℕ → DirEntry
  pub valid : IsValid b entries_after s'
  pub refused : r ≡ false → entries_after ≡ e
  pub holds_path :
      r ≡ true
      → length target < max_file_name
      → IsText target
      → Follows entries_after s' link_name target
  pub others :
      (other : Name)
      → str_eq (base_name (some link_name)) other ≡ false
      → find_name entries_after (max_dir_entries s) other ≡ find_name e (max_dir_entries s) other

module _ {b : ℕ} {e : ℕ → DirEntry} (s : Volume) (v : IsValid b e s) (target : Name)
    (link_name : Name) (fits : length target < s.fs_params.block_size) where
  nothing_new :
      (r : Bool) (s' : Volume)
      → SymLinkResult b e target (some link_name) s r s'
      → r ≡ false
      → IsValid b e s'
      → SymLinked b e target link_name s r s'
  nothing_new r s' o er w = record {
    outcome = o;
    entries_after = e;
    valid = w;
    refused = λ _. refl;
    holds_path = λ h. absurd (false≢true (sym er ∙ h));
    others = λ other d. refl;
  }

  c_string-stored :
      (c : ℕ → ℕ) → IsText target → c_string s.fs_params.block_size (stored target c) ≡ target
  c_string-stored c text =
      c_string-char_at s.fs_params.block_size target (stored target c) text
        (λ k lt le. ground arith)
      ∙ take_all s.fs_params.block_size target (omega arith)

  pointed :
      (i j d : ℕ) (c : ℕ → ℕ)
      → valid_pathname (some link_name) ≡ true
      → s.freeinode_ts i ≡ free
      → d < s.fs_params.max_block_count
      → s.free_blocks d ≡ free
      → find_name
          (update e j (used (base_name (some link_name)) i))
          (max_dir_entries s)
          (base_name (some link_name))
        ≡ some i
      → length target < max_file_name
      → IsText target
      → Follows
          (update e j (used (base_name (some link_name)) i))
          (sym_linked b e j (base_name (some link_name)) target c i d s)
          link_name
          target
  pointed i j d c ok i_free ltd q found short text = record {
    link = i;
    found = rw ok found;
    is_symbolic = ap (λ n. is_link n.i_node_type) (update_self s.inode_table i (link_node d));
    block = d;
    link_block = ap (λ n. n.i_data_block) (update_self s.inode_table i (link_node d));
    block_in = ltd;
    content = stored target c;
    block_bytes = ground (arith, v.inv.root.block_taken);
    path = c_string-stored c text;
    fits = fits;
    short = short;
  }

  tried-SymLinked :
      (i : ℕ)
      → i < s.fs_params.max_inode_count
      → s.freeinode_ts i ≡ free
      → valid_pathname (some link_name) ≡ true
      → lookup e (some link_name) s ≡ none
      → (r : Bool) (s' : Volume) → SymLinkResult b e target (some link_name) s r s'
      → PathResult b e target (base_name (some link_name)) i s r s'
      → SymLinked b e target link_name s r s'
  tried-SymLinked i lt i_free ok fresh r s' o (no_block every er es) = nothing_new r s' o er (
      rw es
        (record { inv = Inv-node v.inv i i_free _; unlocked = Unlocked-tables _ _ _ _ v.unlocked }))
  tried-SymLinked i lt i_free ok fresh r s' o (no_entry d c q bad er es) = nothing_new r s' o er (
      rw es (record {
        inv = Inv-block (Inv-node v.inv i i_free (link_node d)) d (bytes (stored target c)) q;
        unlocked = Unlocked-tables _ _ _ _ v.unlocked;
      }))
  tried-SymLinked i lt i_free ok fresh r s' o (points d c j ltd q ltj fr long short er es) =
      let name = base_name (some link_name) in
      let new : find_name e (max_dir_entries s) name ≡ none = ground arith in
      let after = find_name-add v.inv.names j i name ltj fr long short new in
      let here = after name ∙ if_true _ _ _ (str_eq_refl name) in
      let made = Inv-block (Inv-node v.inv i i_free (link_node d)) d (bytes (stored target c)) q in
      record {
        outcome = o;
        entries_after = update e j (used name i);
        valid = rw es (record {
          inv =
              Inv-named made i i_free j name (ground arith) (ground arith) ltj fr lt long short new;
          unlocked = Unlocked-tables _ _ _ _ v.unlocked;
        });
        refused = λ h. absurd (false≢true (sym h ∙ er));
        holds_path = λ _ small text. rw es (pointed i j d c ok i_free ltd q here small text);
        others = λ other dif. after other ∙ if_false _ _ _ dif;
      }

  SymLinkResult-SymLinked :
      (r : Bool) (s' : Volume)
      → SymLinkResult b e target (some link_name) s r s'
      → SymLinked b e target link_name s r s'
  SymLinkResult-SymLinked r s' (invalid bad er es) =
      nothing_new r s' (invalid bad er es) er (rw es v)
  SymLinkResult-SymLinked r s' (no_target q er es) =
      nothing_new r s' (no_target q er es) er (rw es v)
  SymLinkResult-SymLinked r s' (name_taken j q er es) =
      nothing_new r s' (name_taken j q er es) er (rw es v)
  SymLinkResult-SymLinked r s' (no_inode every er es) =
      nothing_new r s' (no_inode every er es) er (rw es v)
  SymLinkResult-SymLinked r s' (tried i lt q ok fresh p) =
      tried-SymLinked i lt q ok fresh r s' (tried i lt q ok fresh p) p

  -- On a valid volume whose other blocks are plain bytes, `tfs_sym_link` with a target path that fits
  -- a block returns in a valid volume, with one of the outcomes of `SymLinkResult`. When it succeeds,
  -- and the target is shorter than a name may be, the link holds the target; when it fails, the root
  -- directory is as before. No other name is touched.
  pub tfs_sym_link-SymLinked :
      ((d : ℕ) → d ≢ b → (c : ℕ → ℕ) × (s.fs_data d ≡ bytes c))
      → Ends (SymLinked b e target link_name s) (tfs_sym_link (some target) (some link_name) s)
  tfs_sym_link-SymLinked plain =
      Ends-mono (tfs_sym_link-SymLinkResult v.inv v.unlocked target fits plain (some link_name))
        SymLinkResult-SymLinked

  -- On such a volume, after `tfs_sym_link` has made a link to a target path shorter than a name may
  -- be, opening the link without O_CREAT does what opening the target does, one level of the
  -- recursion deeper.
  pub tfs_open-tfs_sym_link :
      ((d : ℕ) → d ≢ b → (c : ℕ → ℕ) × (s.fs_data d ≡ bytes c))
      → length target < max_file_name
      → IsText target
      → Ends
          (λ r s'.
            r ≡ true
            → (fuel mode : ℕ) → has_flag mode tfs_o_creat ≡ false
            → tfs_open (1 + fuel) (some link_name) mode s' ≡ tfs_open fuel (some target) mode s')
          (tfs_sym_link (some target) (some link_name) s)
  tfs_open-tfs_sym_link plain small text =
      Ends-mono (tfs_sym_link-SymLinked plain) (λ r s' o er fuel mode flag.
        tfs_open-Chain s' o.valid mode flag 1 fuel link_name target
          (follow 0 link_name target target (o.holds_path er small text) (stop target)))
