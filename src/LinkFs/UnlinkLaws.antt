-- ===== src/LinkFs/UnlinkLaws.antt =====
-- `tfs_unlink` of fs/operations.c: the invariant, the names and the inodes.
use so_project.Base.{
  ℕ, ◌≡◌, refl, sym, ◌∙◌, ◌↔◌, Bool, true, false, Option, none, some, update, if_true, if_false,
  update_self, Name, str_eq, str_eq_refl, arith,
}
use mathlib.Core.Bool.{false≢true}
use so_project.Base.Monad.{Ends, Ends-mono}
use so_project.Tfs.Types.{DirEntry, free}
use so_project.Tfs.Operations.{base_name}
use so_project.Tfs.Directory.{find_name, IsEntry}
use so_project.Tfs.DirUpdate.{blank, find_name-remove}
use so_project.LinkFs.Types.{Volume, max_dir_entries}
use so_project.LinkFs.Operations.{tfs_unlink}
use so_project.LinkFs.Refs.{refs}
use so_project.LinkFs.Valid.{IsValid}
use so_project.LinkFs.Calls.{is_open}
use so_project.LinkFs.Update.{Inv-dropped, Inv-removed, Unlocked-tables}
use so_project.LinkFs.Link.{lookup, lookup_listed}
use so_project.LinkFs.Unlink.{UnlinkResult, missing, busy, drops, removes, tfs_unlink-UnlinkResult}

-- After `tfs_unlink`, for the root directory `e` before it.
pub record NameDropped (b : ℕ) (e : ℕ → DirEntry) (target : Option Name) (s : Volume) (r : Bool)
    (s' : Volume) : Type 0 where
  pub entries_after : ℕ → DirEntry
  pub valid : IsValid b entries_after s'
  pub refused : r ≡ false → (s' ≡ s) × ((i : ℕ) → lookup e target s ≡ some i → is_open i s ≡ true)
  pub gone : r ≡ true → lookup entries_after target s ≡ none
  pub freed :
      r ≡ true
      → (i : ℕ) × (lookup e target s ≡ some i)
        × ((s'.freeinode_ts i ≡ free) ↔ (refs (max_dir_entries s) e i ≡ 1))
  pub others :
      (other : Name)
      → str_eq (base_name target) other ≡ false
      → find_name entries_after (max_dir_entries s) other ≡ find_name e (max_dir_entries s) other

module _ {b : ℕ} {e : ℕ → DirEntry} (s : Volume) (target : Option Name) (v : IsValid b e s) where
  lookup-gone :
      (i k : ℕ)
      → lookup e target s ≡ some i
      → IsEntry e (max_dir_entries s) (base_name target) i k
      → lookup (update e k blank) target s ≡ none
  lookup-gone i k q h =
      let (valid, _, _, _, _, _) = lookup_listed v.inv v.unlocked target i q in
      rw valid (
        find_name-remove v.inv.names k i (base_name target) h (base_name target)
        ∙ if_true _ _ _ (str_eq_refl (base_name target)))

  UnlinkResult-NameDropped :
      (r : Bool) (s' : Volume) → UnlinkResult b e target s r s' → NameDropped b e target s r s'
  UnlinkResult-NameDropped r s' (missing q er es) = record {
    entries_after = e;
    valid = rw es v;
    refused = λ _. (es, λ i q'. ground arith);
    gone = λ h. absurd (false≢true (sym er ∙ h));
    freed = λ h. absurd (false≢true (sym er ∙ h));
    others = λ other d. refl;
  }
  UnlinkResult-NameDropped r s' (busy i q plain opened er es) = record {
    entries_after = e;
    valid = rw es v;
    refused = λ _. (es, λ x q'. ground arith);
    gone = λ h. absurd (false≢true (sym er ∙ h));
    freed = λ h. absurd (false≢true (sym er ∙ h));
    others = λ other d. refl;
  }
  UnlinkResult-NameDropped r s' (drops i k q h more er es) =
      let (valid, _, _, lt, nz, t) = lookup_listed v.inv v.unlocked target i q in
      let after = find_name-remove v.inv.names k i (base_name target) h in
      let counted = v.inv.links.counts i nz lt t in
      record {
        entries_after = update e k blank;
        valid = rw es (record {
          inv = Inv-dropped v.inv k i (base_name target) h more;
          unlocked = Unlocked-tables _ _ _ _ v.unlocked;
        });
        refused = λ h'. absurd (false≢true (sym h' ∙ er));
        gone = λ _. lookup-gone i k q h;
        freed = λ _. (i, q, (λ f. ground arith, λ once. absurd (more (counted ∙ once))));
        others = λ other d. after other ∙ if_false _ _ _ d;
      }
  UnlinkResult-NameDropped r s' (removes i k q h last idle er es) =
      let (valid, _, _, lt, nz, t) = lookup_listed v.inv v.unlocked target i q in
      let after = find_name-remove v.inv.names k i (base_name target) h in
      let counted = v.inv.links.counts i nz lt t in
      record {
        entries_after = update e k blank;
        valid = rw es (record {
          inv = Inv-removed v.inv k i (base_name target) h last;
          unlocked = Unlocked-tables _ _ _ _ v.unlocked;
        });
        refused = λ h'. absurd (false≢true (sym h' ∙ er));
        gone = λ _. lookup-gone i k q h;
        freed =
            λ _. (i, q, (λ _. sym counted ∙ last, λ _. rw es (update_self s.freeinode_ts i free)));
        others = λ other d. after other ∙ if_false _ _ _ d;
      }

  -- From a valid volume, `tfs_unlink` returns in a valid one. When it succeeds, the path names
  -- nothing, and the inode that it named is free exactly if that was its only name. When it fails,
  -- nothing is changed, and the file that the path names, if it names one, is open. No other name is
  -- touched.
  pub tfs_unlink-NameDropped : Ends (NameDropped b e target s) (tfs_unlink target s)
  tfs_unlink-NameDropped = Ends-mono (tfs_unlink-UnlinkResult s target v) UnlinkResult-NameDropped
