-- ===== src/LinkFs/SymLinkLaws.antt =====
-- `tfs_sym_link` of fs/operations.c: the invariant, the names, and opening the link.
use so_project.Base.{
  ℕ, ◌<◌, ◌≡◌, refl, ◌≢◌, inl, inr, Bool, true, false, Option, none, some, Option-cases, Bool-cases,
  Name, length,
}
use so_project.Base.Monad.{
  pure, branch, on_index, Ends, ends, Ends-step, Ends-then, Ends->>=, Ends-done, Ends-mono,
}
use so_project.Tfs.Types.{DirEntry, free, taken, bytes}
use so_project.Tfs.Operations.{valid_pathname, base_name}
use so_project.LinkFs.Types.{t_link, Volume, V}
use so_project.LinkFs.State.{inode_create}
use so_project.LinkFs.Operations.{unlock_return, link_to, sym_link_valid, tfs_sym_link}
use so_project.LinkFs.Valid.{Inv, Unlocked}
use so_project.LinkFs.Calls.{locked, root_dir-eq, lock_inode-eq, unlock_return-eq, unlock-locked}
use so_project.LinkFs.Link.{lookup, link_targets-eq}
use so_project.LinkFs.Create.{Makes, all_taken, makes, inode_create-Makes}
use so_project.LinkFs.SymLink.{PathResult, link_to-PathResult}

-- What `tfs_sym_link` does: refuse, with nothing changed, or try to make the link with the inode `i`.
pub data SymLinkResult (b : ℕ) (e : ℕ → DirEntry) (target : Name) (link_name : Option Name)
    (s : Volume) (r : Bool) (s' : Volume) : Type 0 where
  invalid :
      valid_pathname link_name ≡ false
      → r ≡ false
      → s' ≡ s
      → SymLinkResult b e target link_name s r s'
  no_target :
      lookup e (some target) s ≡ none
      → r ≡ false
      → s' ≡ s
      → SymLinkResult b e target link_name s r s'
  name_taken :
      (j : ℕ)
      → lookup e link_name s ≡ some j
      → r ≡ false
      → s' ≡ s
      → SymLinkResult b e target link_name s r s'
  no_inode :
      ((i : ℕ) → i < s.fs_params.max_inode_count → s.freeinode_ts i ≡ taken)
      → r ≡ false
      → s' ≡ s
      → SymLinkResult b e target link_name s r s'
  tried :
      (i : ℕ)
      → i < s.fs_params.max_inode_count
      → s.freeinode_ts i ≡ free
      → valid_pathname link_name ≡ true
      → lookup e link_name s ≡ none
      → PathResult b e target (base_name link_name) i s r s'
      → SymLinkResult b e target link_name s r s'

abbrev link_steps : Name → Option Name → Option ℕ → V Bool
link_steps target link_name new_inum =
    on_index new_inum (unlock_return 0 false) (link_to target link_name 0)

module _ {b : ℕ} {e : ℕ → DirEntry} {s : Volume} (v : Inv b e s) (u : Unlocked s) (target : Name)
    (fits : length target < s.fs_params.block_size)
    (plain : (d : ℕ) → d ≢ b → (c : ℕ → ℕ) × (s.fs_data d ≡ bytes c)) where
  link_steps-SymLinkResult :
      (link_name : Option Name)
      → valid_pathname link_name ≡ true
      → lookup e link_name s ≡ none
      → (r : Option ℕ) (t : Volume) → Makes t_link (locked 0 s) r t
      → Ends (SymLinkResult b e target link_name s) (link_steps target link_name r t)
  unfolding on_index
  link_steps-SymLinkResult link_name ok fresh r t (all_taken every er et) =
      rw (er, et)
        (Ends-done (unlock_return-eq 0 false _)
          (no_inode every refl (unlock-locked 0 s (u.inodes_free 0))))
  link_steps-SymLinkResult link_name ok fresh r t (makes i lt q er et) =
      rw (er, et)
        (Ends-mono (link_to-PathResult v u target i lt q link_name ok fits plain)
          (λ r' s' p. tried i lt q ok fresh p))

  sym_link_valid-SymLinkResult :
      (link_name : Option Name)
      → valid_pathname link_name ≡ true
      → Ends (SymLinkResult b e target link_name s) (sym_link_valid (some target) link_name s)
  unfolding sym_link_valid on_index
  sym_link_valid-SymLinkResult link_name ok =
      let relocked = unlock-locked 0 s (u.inodes_free 0) in
      let targets = link_targets-eq v u (some target) link_name in
      Ends-step _ _ s (root_dir-eq v.root) (
        Ends-then _ _ s (lock_inode-eq 0 s (u.inodes_free 0))
          (elim (Option-cases (lookup e (some target) s)) [
            | inl q ↦
                Ends-step _ _ (locked 0 s) (simp q at targets)
                  (Ends-done (unlock_return-eq 0 false _) (no_target q refl relocked))
            | inr (i, q) ↦ elim (Option-cases (lookup e link_name s)) [
              | inr (j, q') ↦
                  Ends-step _ _ (locked 0 s) (simp (q, q') at targets)
                    (Ends-done (unlock_return-eq 0 false _) (name_taken j q' refl relocked))
              | inl fresh ↦ Ends-step _ _ (locked 0 s) (simp (q, fresh) at targets) (
                  Ends->>= (inode_create t_link) (link_steps target link_name) (locked 0 s)
                    (inode_create-Makes (locked 0 s) u.table_free t_link (λ k. refl))
                    (link_steps-SymLinkResult link_name ok fresh))
            ]
          ]))

  pub tfs_sym_link-SymLinkResult :
      (link_name : Option Name)
      → Ends (SymLinkResult b e target link_name s) (tfs_sym_link (some target) link_name s)
  unfolding tfs_sym_link branch pure
  tfs_sym_link-SymLinkResult link_name = elim (Bool-cases (valid_pathname link_name)) [
    | inl ok ↦ rw ok (sym_link_valid-SymLinkResult link_name ok)
    | inr bad ↦ rw bad (ends false s (invalid bad refl refl))
  ]
