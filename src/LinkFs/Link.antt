-- ===== src/LinkFs/Link.antt =====
-- `tfs_link` of fs/operations.c.
use so_project.Base.{
  ℕ, ◌≤◌, ◌<◌, ◌≡◌, refl, ap, ◌≢◌, ◌⊎◌, inl, inr, Bool, true, false, Option, none, some, update,
  Bool-cases, Option-cases, if◌then◌else◌, Name, length, arith,
}
use so_project.Base.Monad.{
  pure, ◌>>=◌, ◌>>◌, reads, branch, on_index, Ends, ends, Ends-then, Ends-step, Ends-reads,
  Ends-modify, Ends->>=, Ends-done,
}
use so_project.Tfs.Types.{max_file_name, DirEntry, taken}
use so_project.Tfs.Operations.{valid_pathname, base_name}
use so_project.Tfs.Directory.{find_name, IsEntry, find_name-cases}
use so_project.LinkFs.Types.{Volume, V, max_dir_entries}
use so_project.LinkFs.Tables.{add_dir_entry}
use so_project.LinkFs.State.{set_inode}
use so_project.LinkFs.Operations.{
  is_link, hard_link, link_targets, link_valid, tfs_link, unlock_inode, unlock_return, links_up,
}
use so_project.LinkFs.Valid.{Inv, Unlocked, IsValid}
use so_project.LinkFs.Calls.{
  relock, relock_both, locked, lock_inode-eq, unlock_return-eq, unlock_both-eq, root_dir-eq,
  tfs_lookup-eq, inode_get-eq, Adds, misfit, crowded, adds, add_dir_entry-Adds,
}
use so_project.LinkFs.Update.{Inv-locks, linked}

-- What a path names in the root directory.
abbrev pub lookup : (ℕ → DirEntry) → Option Name → Volume → Option ℕ
lookup e name s =
    if valid_pathname name then find_name e (max_dir_entries s) (base_name name) else none

-- What `tfs_link` does, for the root directory `e` in block `b`. Nothing is changed unless the
-- new entry is made.
pub data LinkResult (b : ℕ) (e : ℕ → DirEntry) (target link_name : Option Name) (s : Volume)
    (r : Bool) (s' : Volume) : Type 0 where
  invalid :
      valid_pathname link_name ≡ false → r ≡ false → s' ≡ s → LinkResult b e target link_name s r s'
  no_target : lookup e target s ≡ none → r ≡ false → s' ≡ s → LinkResult b e target link_name s r s'
  name_taken :
      (j : ℕ)
      → lookup e link_name s ≡ some j
      → r ≡ false
      → s' ≡ s
      → LinkResult b e target link_name s r s'
  symbolic :
      (i : ℕ)
      → lookup e target s ≡ some i
      → is_link (s.inode_table i).i_node_type ≡ true
      → r ≡ false
      → s' ≡ s
      → LinkResult b e target link_name s r s'
  no_room :
      (length (base_name link_name) ≡ 0)
        ⊎ ((max_file_name ≤ length (base_name link_name))
            ⊎ ((k : ℕ) → k < max_dir_entries s → (e k).d_inumber ≢ none))
      → r ≡ false
      → s' ≡ s
      → LinkResult b e target link_name s r s'
  links :
      (i j : ℕ)
      → lookup e target s ≡ some i
      → is_link (s.inode_table i).i_node_type ≡ false
      → valid_pathname link_name ≡ true
      → lookup e link_name s ≡ none
      → j < max_dir_entries s
      → (e j).d_inumber ≡ none
      → 0 < length (base_name link_name)
      → length (base_name link_name) < max_file_name
      → r ≡ true
      → s' ≡ linked b e j (base_name link_name) i s
      → LinkResult b e target link_name s r s'

-- The end of `hard_link`, after the entry is added or not.
abbrev finish_link : ℕ → Bool → V Bool
finish_link i added =
    branch added
      (do
        node ← reads (λ s. s.inode_table i)
        set_inode i (record node { i_links_count = links_up node.i_links_count })
        unlock_inode i
        unlock_return 0 true)
      (do unlock_inode i; unlock_return 0 false)

module _ {b : ℕ} {e : ℕ → DirEntry} {s : Volume} (v : Inv b e s) (u : Unlocked s) where
  pub link_targets-eq :
      (target link_name : Option Name)
      → link_targets target link_name 0 (locked 0 s)
        ≡ some (
          elim (lookup e target s) [
            | none ↦ none
            | some i ↦ elim (lookup e link_name s) [ none ↦ some i | some j ↦ none ]
          ],
          locked 0 s,
        )
  unfolding link_targets ◌>>=◌ on_index pure
  link_targets-eq target link_name =
      let r = (Inv-locks (update s.inode_rwl 0 true) v).root in
      elim (Option-cases (lookup e target s)) [
        | inl q ↦ ground (arith, tfs_lookup-eq r target)
        | inr (i, q) ↦ elim (Option-cases (lookup e link_name s)) [
          | inl q' ↦ ground (arith, tfs_lookup-eq r target, tfs_lookup-eq r link_name)
          | inr (j, q') ↦ ground (arith, tfs_lookup-eq r target, tfs_lookup-eq r link_name)
        ]
      ]

  -- The inode that a path names is a file of the volume.
  pub lookup_listed :
      (name : Option Name) (i : ℕ)
      → lookup e name s ≡ some i
      → (valid_pathname name ≡ true)
        × (k : ℕ) × (IsEntry e (max_dir_entries s) (base_name name) i k)
        × (i < s.fs_params.max_inode_count)
        × (i ≢ 0)
        × (s.freeinode_ts i ≡ taken)
  lookup_listed name i q = elim (Bool-cases (valid_pathname name)) [
    | inr bad ↦ absurd (ground arith)
    | inl ok ↦ elim (find_name-cases v.names (base_name name)) [
      | inl (q', none_such) ↦ absurd (ground arith)
      | inr (x, q', (k, h)) ↦
          let here : (e k).d_inumber ≡ some i = ground arith in
          let (lt, nz, t) = v.links.listed k i h.0 here in (ok, k, (h.0, here, h.2), lt, nz, t)
    ]
  ]

  pub both_free :
      (i : ℕ) (t : (ℕ → Bool) → Volume)
      → t (update (update (update (update s.inode_rwl 0 true) i true) i false) 0 false)
        ≡ t s.inode_rwl
  both_free i t = ap t (relock_both s.inode_rwl 0 i (u.inodes_free 0) (u.inodes_free i))

  -- The end of `hard_link`, after `add_dir_entry`.
  finish_link-LinkResult :
      (target link_name : Option Name) (i : ℕ)
      → lookup e target s ≡ some i
      → is_link (s.inode_table i).i_node_type ≡ false
      → lookup e link_name s ≡ none
      → valid_pathname link_name ≡ true
      → (a : Bool) (t : Volume)
      → Adds b (max_dir_entries s) e (base_name link_name) i (locked i (locked 0 s)) a t
      → Ends (LinkResult b e target link_name s) (finish_link i a t)
  unfolding branch set_inode
  finish_link-LinkResult target link_name i q plain fresh ok a t (misfit qa qt bad) =
      rw (qa, qt)
        (Ends-done (unlock_both-eq i false _) (
          no_room (elim bad [ inl z ↦ inl z | inr l ↦ inr (inl l) ]) refl
            (both_free i (λ l. record s { inode_rwl = l }))))
  finish_link-LinkResult target link_name i q plain fresh ok a t (crowded qa qt full) =
      rw (qa, qt)
        (Ends-done (unlock_both-eq i false _)
          (no_room (inr (inr full)) refl (both_free i (λ l. record s { inode_rwl = l }))))
  finish_link-LinkResult target link_name i q plain fresh ok a t (adds j qa qt lt fr long short) =
      rw (qa, qt)
        (Ends-reads _ _ _ (
          Ends-modify _ _ _ (
            Ends-done (unlock_both-eq i true _) (
              links i j q plain ok fresh lt fr long short refl (
                both_free i
                  (λ l. record (linked b e j (base_name link_name) i s) { inode_rwl = l }))))))

  hard_link-LinkResult :
      (target link_name : Option Name) (i : ℕ)
      → lookup e target s ≡ some i
      → lookup e link_name s ≡ none
      → valid_pathname link_name ≡ true
      → Ends (LinkResult b e target link_name s) (hard_link link_name 0 i (locked i (locked 0 s)))
  unfolding hard_link branch
  hard_link-LinkResult target link_name i q fresh ok =
      let r = (Inv-locks (update (update s.inode_rwl 0 true) i true) v).root in
      let back = both_free i (λ l. record s { inode_rwl = l }) in
      elim (Bool-cases (is_link (s.inode_table i).i_node_type)) [
        | inl symb ↦
            Ends-reads _ _ _
              (rw symb (Ends-done (unlock_both-eq i false _) (symbolic i q symb refl back)))
        | inr plain ↦ Ends-reads _ _ _ (
            rw plain (
              Ends->>= (add_dir_entry 0 (base_name link_name) i) (finish_link i)
                (locked i (locked 0 s)) (add_dir_entry-Adds r (base_name link_name) i)
                (finish_link-LinkResult target link_name i q plain fresh ok)))
      ]

  link_valid-LinkResult :
      (target link_name : Option Name)
      → valid_pathname link_name ≡ true
      → Ends (LinkResult b e target link_name s) (link_valid target link_name s)
  unfolding link_valid on_index
  link_valid-LinkResult target link_name ok =
      let relocked =
        ap (λ l. record s { inode_rwl = l }) (relock s.inode_rwl 0 (u.inodes_free 0)) in
      let targets = link_targets-eq target link_name in
      Ends-step _ _ s (root_dir-eq v.root) (
        Ends-then _ _ s (lock_inode-eq 0 s (u.inodes_free 0))
          (elim (Option-cases (lookup e target s)) [
            | inl q ↦
                Ends-step _ _ (locked 0 s) (simp q at targets)
                  (Ends-done (unlock_return-eq 0 false _) (no_target q refl relocked))
            | inr (i, q) ↦ elim (Option-cases (lookup e link_name s)) [
              | inr (j, q') ↦
                  Ends-step _ _ (locked 0 s) (simp (q, q') at targets)
                    (Ends-done (unlock_return-eq 0 false _) (name_taken j q' refl relocked))
              | inl fresh ↦
                  let (valid, k, h, lt, nz, t) = lookup_listed target i q in
                  Ends-step _ _ (locked 0 s) (simp (q, fresh) at targets) (
                    Ends-step _ _ (locked 0 s) (inode_get-eq i (locked 0 s) lt) (
                      Ends-then _ _ (locked 0 s)
                        (lock_inode-eq i (locked 0 s) (ground (arith, u.inodes_free i)))
                        (hard_link-LinkResult target link_name i q fresh ok)))
            ]
          ]))

-- From a valid state, `tfs_link` returns, with one of the outcomes of `LinkResult`.
pub tfs_link-LinkResult :
    {b : ℕ} {e : ℕ → DirEntry} (s : Volume) (target link_name : Option Name)
    → IsValid b e s
    → Ends (LinkResult b e target link_name s) (tfs_link target link_name s)
unfolding tfs_link branch pure
tfs_link-LinkResult s target link_name v = elim (Bool-cases (valid_pathname link_name)) [
  | inl ok ↦ rw ok (link_valid-LinkResult v.inv v.unlocked target link_name ok)
  | inr bad ↦ rw bad (ends false s (invalid bad refl refl))
]
