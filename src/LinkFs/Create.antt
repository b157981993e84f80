-- ===== src/LinkFs/Create.antt =====
-- `tfs_open` of fs/operations.c with O_CREAT, on a path that names nothing.
use so_project.Base.{
  ℕ, ◌<◌, ◌≡◌, refl, sym, ap, subst, fun_ext, inl, inr, Bool, false, Option, none, some, update,
  first_index-Found, arith,
}
use so_project.Base.Monad.{
  pure, ◌>>◌, on_index, modify, Ends, Ends-then, Ends-reads, Ends-modify, Ends->>=, Ends-done,
  pure-eq,
}
use so_project.Tfs.Types.{free, taken, is_free}
use so_project.Tfs.Alloc.{is_free→eq, not_is_free→eq}
use so_project.LinkFs.Types.{InodeType, t_file, Inode, Volume, V, unlock}
use so_project.LinkFs.State.{
  set_inode, begin_inode, create_typed, inode_alloc, inode_create, create_plain,
}
use so_project.LinkFs.Calls.{lock-eq}

abbrev pub fresh : InodeType → Inode
fresh kind = record { i_node_type = kind; i_links_count = 1; i_size = 0; i_data_block = none }

abbrev pub fresh_file : Inode
fresh_file = fresh t_file

-- The volume after `inode_create` has taken the inode `i`.
abbrev pub with_new : InodeType → ℕ → Volume → Volume
with_new kind i s = record s {
  inode_table = update s.inode_table i (fresh kind);
  inode_rwl = update s.inode_rwl i false;
  freeinode_ts = update s.freeinode_ts i taken;
}

abbrev pub with_inode : ℕ → Volume → Volume
with_inode i s = with_new t_file i s

-- What `inode_create` does for a file or a link.
pub data Makes (kind : InodeType) (s : Volume) (r : Option ℕ) (s' : Volume) : Type 0 where
  all_taken :
      ((i : ℕ) → i < s.fs_params.max_inode_count → s.freeinode_ts i ≡ taken)
      → r ≡ none
      → s' ≡ s
      → Makes kind s r s'
  makes :
      (i : ℕ)
      → i < s.fs_params.max_inode_count
      → s.freeinode_ts i ≡ free
      → r ≡ some i
      → s' ≡ with_new kind i s
      → Makes kind s r s'

-- The end of `inode_create`.
abbrev make_file : InodeType → Option ℕ → V (Option ℕ)
make_file kind inumber =
    on_index inumber (pure none)
      (λ inumber. do modify (begin_inode kind inumber); create_typed kind inumber)

module _ (s : Volume) (table : s.inode_table_rwl ≡ false) where
  table_free : (t : Bool → Volume) → t false ≡ t s.inode_table_rwl
  table_free t = ap t (sym table)

  data Allocs (r : Option ℕ) (s' : Volume) : Type 0 where
    full :
        ((i : ℕ) → i < s.fs_params.max_inode_count → s.freeinode_ts i ≡ taken)
        → r ≡ none
        → s' ≡ s
        → Allocs r s'
    allocs :
        (i : ℕ)
        → i < s.fs_params.max_inode_count
        → s.freeinode_ts i ≡ free
        → r ≡ some i
        → s' ≡ record s { freeinode_ts = update s.freeinode_ts i taken }
        → Allocs r s'

  inode_alloc-Allocs : Ends Allocs (inode_alloc s)
  unfolding inode_alloc on_index unlock
  inode_alloc-Allocs = Ends-then _ _ s (lock-eq _ _ s table) (
      Ends-reads _ _ _
        (elim (first_index-Found (λ k. is_free (s.freeinode_ts k)) s.fs_params.max_inode_count) [
          | inl (q, none_free) ↦ rw q (
              Ends-modify _ _ _ (
                Ends-done (pure-eq _ _) (
                  full (λ h lt. not_is_free→eq _ (none_free h lt)) refl
                    (table_free (λ x. record s { inode_table_rwl = x })))))
          | inr (h, q, lt, t, least) ↦ rw q (
              Ends-modify _ _ _ (
                Ends-modify _ _ _ (
                  Ends-done (pure-eq _ _) (
                    allocs h lt (is_free→eq _ t) refl (
                      table_free (λ x. record s {
                        freeinode_ts = update s.freeinode_ts h taken;
                        inode_table_rwl = x;
                      }))))))
        ]))

  module _ (kind : InodeType) (plain : (i : ℕ) → create_typed kind i ≡ create_plain i) where
    after_alloc :
        (r : Option ℕ) (s' : Volume) → Allocs r s' → Ends (Makes kind s) (make_file kind r s')
    unfolding on_index create_plain set_inode
    after_alloc r s' (full all er es) =
        rw (er, es) (Ends-done (pure-eq none s) (all_taken all refl refl))
    after_alloc r s' (allocs i lt q er es) =
        rw (er, es)
          (Ends-modify _ _ _ (
            subst
              (λ m. Ends (Makes kind s) (
                m (begin_inode kind i (record s { freeinode_ts = update s.freeinode_ts i taken }))))
              (sym (plain i))
              (Ends-reads _ _ _ (
                Ends-modify _ _ _ (
                  Ends-done (pure-eq _ _) (
                    makes i lt q refl (
                      ap (λ f. record (with_new kind i s) { inode_table = f })
                        (fun_ext λ j. ground arith))))))))

    pub inode_create-Makes : Ends (Makes kind s) (inode_create kind s)
    unfolding inode_create
    inode_create-Makes = Ends->>= _ _ _ inode_alloc-Allocs after_alloc
