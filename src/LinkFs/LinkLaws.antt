-- ===== src/LinkFs/LinkLaws.antt =====
-- `tfs_link` of fs/operations.c: the invariant, the names and the link count.
use so_project.Base.{
  ℕ, ◌+◌, ◌<◌, ◌≡◌, refl, sym, ◌∙◌, ◌≢◌, Bool, true, false, Option, none, some, update, if_true,
  if_false, Name, str_eq, str_eq_refl, arith,
}
use mathlib.Core.Bool.{false≢true}
use so_project.Base.Monad.{Ends, Ends-mono}
use so_project.Tfs.Types.{DirEntry, taken}
use so_project.Tfs.Operations.{base_name}
use so_project.Tfs.Directory.{find_name}
use so_project.Tfs.DirUpdate.{used, find_name-add}
use so_project.LinkFs.Types.{Volume, max_dir_entries}
use so_project.LinkFs.Operations.{tfs_link}
use so_project.LinkFs.Refs.{refs-used, refs_le}
use so_project.LinkFs.Valid.{IsValid}
use so_project.LinkFs.Update.{linked, Inv-linked, Unlocked-tables}
use so_project.LinkFs.Link.{
  lookup, lookup_listed, LinkResult, invalid, no_target, name_taken, symbolic, no_room, links,
  tfs_link-LinkResult,
}

-- After `tfs_link`, for the root directory `e` before it.
pub record Linked (b : ℕ) (e : ℕ → DirEntry) (target link_name : Option Name) (s : Volume)
    (r : Bool) (s' : Volume) : Type 0 where
  pub entries_after : ℕ → DirEntry
  pub valid : IsValid b entries_after s'
  pub refused : r ≡ false → s' ≡ s
  pub same_file :
      r ≡ true
      → (i : ℕ) × (lookup e target s ≡ some i)
        × (lookup entries_after link_name s ≡ some i)
        × ((s'.inode_table i).i_links_count ≡ (s.inode_table i).i_links_count + 1)
  pub others :
      (other : Name)
      → str_eq (base_name link_name) other ≡ false
      → find_name entries_after (max_dir_entries s) other ≡ find_name e (max_dir_entries s) other

module _ {b : ℕ} {e : ℕ → DirEntry} (s : Volume) (target link_name : Option Name)
    (v : IsValid b e s) where
  refused-Linked :
      (r : Bool) (s' : Volume) → r ≡ false → s' ≡ s → Linked b e target link_name s r s'
  refused-Linked r s' er es = record {
    entries_after = e;
    valid = rw es v;
    refused = λ _. es;
    same_file = λ h. absurd (false≢true (sym er ∙ h));
    others = λ other d. refl;
  }

  links_grow :
      (j i : ℕ) (name : Name)
      → j < max_dir_entries s
      → (e j).d_inumber ≡ none
      → i < s.fs_params.max_inode_count
      → i ≢ 0
      → s.freeinode_ts i ≡ taken
      → ((linked b e j name i s).inode_table i).i_links_count ≡ (s.inode_table i).i_links_count + 1
  links_grow j i name ltj fr lt nz t =
      let old = v.inv.links.counts i nz lt t in
      let count = refs-used (max_dir_entries s) e j i name i ltj fr in
      let bound = refs_le (max_dir_entries s) (update e j (used name i)) i in
      let few = v.inv.root.few in ground arith

  LinkResult-Linked :
      (r : Bool) (s' : Volume)
      → LinkResult b e target link_name s r s'
      → Linked b e target link_name s r s'
  LinkResult-Linked r s' (invalid bad er es) = refused-Linked r s' er es
  LinkResult-Linked r s' (no_target q er es) = refused-Linked r s' er es
  LinkResult-Linked r s' (name_taken j q er es) = refused-Linked r s' er es
  LinkResult-Linked r s' (symbolic i q symb er es) = refused-Linked r s' er es
  LinkResult-Linked r s' (no_room bad er es) = refused-Linked r s' er es
  LinkResult-Linked r s' (links i j q plain ok fresh ltj fr long short er es) =
      let (valid, k, h, lt, nz, t) = lookup_listed v.inv v.unlocked target i q in
      let new : find_name e (max_dir_entries s) (base_name link_name) ≡ none = ground arith in
      let here : lookup (update e j (used (base_name link_name) i)) link_name s ≡ some i = rw ok (
        find_name-add v.inv.names j i (base_name link_name) ltj fr long short new
          (base_name link_name)
        ∙ if_true _ _ _ (str_eq_refl (base_name link_name))) in
      let after = find_name-add v.inv.names j i (base_name link_name) ltj fr long short new in
      record {
        entries_after = update e j (used (base_name link_name) i);
        valid = rw es (record {
          inv = Inv-linked v.inv j i (base_name link_name) ltj fr lt nz t long short new;
          unlocked = Unlocked-tables _ _ _ _ v.unlocked;
        });
        refused = λ h. absurd (false≢true (sym h ∙ er));
        same_file = λ _. (i, q, here, rw es (links_grow j i (base_name link_name) ltj fr lt nz t));
        others = λ other d. after other ∙ if_false _ _ _ d;
      }

  -- From a valid volume, `tfs_link` returns in a valid one. When it succeeds, the new path names the
  -- file that the target names, and that file counts one more name; when it fails, nothing is
  -- changed. No other name is touched.
  pub tfs_link-Linked : Ends (Linked b e target link_name s) (tfs_link target link_name s)
  tfs_link-Linked = Ends-mono (tfs_link-LinkResult s target link_name v) LinkResult-Linked
