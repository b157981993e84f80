-- ===== src/LinkFs/Follow.antt =====
-- `tfs_open` of fs/operations.c along symbolic links.
use so_project.Base.{
  ℕ, zero, suc, ◌+◌, ◌≤◌, ◌<◌, ◌≡◌, refl, ap, ◌∙◌, true, false, Option, none, some, update, Name,
  length, c_string, arith,
}
use so_project.Base.Monad.{pure, ◌>>=◌, reads, abort, branch, on_index, >>=-eq, >>-eq}
use so_project.Tfs.Types.{max_file_name, DirEntry, bytes}
use so_project.Tfs.Operations.{has_flag, tfs_o_creat}
use so_project.LinkFs.Types.{Volume, V}
use so_project.LinkFs.Operations.{
  is_link, path_in, link_target, open_link, open_existing, open_valid, tfs_open,
}
use so_project.LinkFs.Valid.{Inv, Unlocked, IsValid}
use so_project.LinkFs.Calls.{
  relock, locked, lock_inode-eq, unlock_inode-eq, tfs_lookup-eq, inode_get-eq, data_block_get-eq,
}
use so_project.LinkFs.Update.{Inv-locks}
use so_project.LinkFs.Link.{lookup, lookup_listed}

-- The path `name` is a symbolic link, and `next` is the path that it holds.
pub record Follows (e : ℕ → DirEntry) (s : Volume) (name next : Name) : Type 0 where
  pub link : ℕ
  pub found : lookup e (some name) s ≡ some link
  pub is_symbolic : is_link (s.inode_table link).i_node_type ≡ true
  pub block : ℕ
  pub link_block : (s.inode_table link).i_data_block ≡ some block
  pub block_in : block < s.fs_params.max_block_count
  pub content : ℕ → ℕ
  pub block_bytes : s.fs_data block ≡ bytes content
  pub path : c_string s.fs_params.block_size content ≡ next
  pub fits : length next < s.fs_params.block_size
  pub short : length next < max_file_name

-- `n` symbolic links, one after the other.
pub data Chain (e : ℕ → DirEntry) (s : Volume) : ℕ → Name → Name → Type 0 where
  stop : (name : Name) → Chain e s zero name name
  follow :
      (n : ℕ) (name next last : Name)
      → Follows e s name next
      → Chain e s n next last
      → Chain e s (suc n) name last

module _ {b : ℕ} {e : ℕ → DirEntry} {s : Volume} (v : Inv b e s) (u : Unlocked s) where
  relocked : (i : ℕ) → update (update s.inode_rwl i true) i false ≡ s.inode_rwl
  relocked i = relock s.inode_rwl i (u.inodes_free i)

  pub open_valid-existing :
      (next : Name → V (Option ℕ)) (name : Option Name) (mode i : ℕ)
      → lookup e name s ≡ some i
      → open_valid next name mode s ≡ open_existing next mode i s
  unfolding open_valid on_index
  open_valid-existing next name mode i q =
      let r = (Inv-locks (update s.inode_rwl 0 true) v).root in
      >>=-eq _ _ s (inode_get-eq 0 s v.root.root_in)
      ∙ >>-eq _ _ s (lock_inode-eq 0 s (u.inodes_free 0))
      ∙ >>=-eq _ _ (locked 0 s) (tfs_lookup-eq r name ∙ ap (λ o. some (o, locked 0 s)) q)
      ∙ >>-eq _ _ (locked 0 s) (unlock_inode-eq 0 (locked 0 s))
      ∙ ap (λ l. open_existing next mode i (record s { inode_rwl = l })) (relocked 0)

  link_target-eq :
      (name next : Name) (f : Follows e s name next)
      → link_target (some f.block) (locked f.link s) ≡ some (next, locked f.link s)
  unfolding link_target path_in ◌>>=◌ reads branch pure on_index
  link_target-eq name next f = ground (
    arith,
    data_block_get-eq f.block (locked f.link s) f.block_in,
    f.block_bytes,
    f.path,
    f.fits,
    f.short,
  )

  open_link-eq :
      (m : Name → V (Option ℕ)) (name next : Name) (mode : ℕ)
      → has_flag mode tfs_o_creat ≡ false
      → (f : Follows e s name next) → open_link m mode f.link (locked f.link s) ≡ m next s
  unfolding open_link branch reads
  open_link-eq m name next mode flag f = rw flag (
      >>=-eq _ _ (locked f.link s) refl
      ∙ rw f.link_block (
          >>=-eq _ _ (locked f.link s) (link_target-eq name next f)
          ∙ >>-eq _ _ (locked f.link s) (unlock_inode-eq f.link (locked f.link s))
          ∙ ap (λ l. m next (record s { inode_rwl = l })) (relocked f.link)))

  open_existing-link :
      (m : Name → V (Option ℕ)) (name next : Name) (mode : ℕ)
      → has_flag mode tfs_o_creat ≡ false
      → (f : Follows e s name next) → open_existing m mode f.link s ≡ m next s
  unfolding open_existing on_index branch reads
  open_existing-link m name next mode flag f =
      let (valid, k, h, lt, nz, t) = lookup_listed v u (some name) f.link f.found in
      >>=-eq _ _ s (inode_get-eq f.link s lt)
      ∙ >>-eq _ _ s (lock_inode-eq f.link s (u.inodes_free f.link))
      ∙ >>=-eq _ _ (locked f.link s) refl
      ∙ rw f.is_symbolic (open_link-eq m name next mode flag f)

  -- One link is one level of the recursion.
  tfs_open-follow :
      (fuel : ℕ) (name next : Name) (mode : ℕ)
      → has_flag mode tfs_o_creat ≡ false
      → Follows e s name next
      → tfs_open (suc fuel) (some name) mode s ≡ tfs_open fuel (some next) mode s
  unfolding tfs_open branch
  tfs_open-follow fuel name next mode flag f =
      let (valid, _, _, _, _, _) = lookup_listed v u (some name) f.link f.found in
      let m : Name → V (Option ℕ) = λ target. tfs_open fuel (some target) mode in
      rw valid (
        open_valid-existing m (some name) mode f.link f.found
        ∙ open_existing-link m name next mode flag f)

  -- `n` symbolic links take `n` levels of the recursion.
  tfs_open_deep :
      (n fuel : ℕ) (name last : Name) (mode : ℕ)
      → has_flag mode tfs_o_creat ≡ false
      → Chain e s n name last
      → tfs_open (n + fuel) (some name) mode s ≡ tfs_open fuel (some last) mode s
  tfs_open_deep zero fuel name last mode flag (stop _) =
      ap (λ k. tfs_open k (some name) mode s) (omega arith)
  tfs_open_deep (suc n) fuel name last mode flag (follow _ _ next _ f c) =
      ap (λ k. tfs_open k (some name) mode s) (omega arith)
      ∙ tfs_open-follow (n + fuel) name next mode flag f
      ∙ tfs_open_deep n fuel next last mode flag c

  -- A recursion that is not as deep as there are links does not end.
  too_shallow :
      (n fuel : ℕ) (name last : Name) (mode : ℕ)
      → has_flag mode tfs_o_creat ≡ false
      → Chain e s n name last
      → fuel ≤ n
      → tfs_open fuel (some name) mode s ≡ none
  unfolding tfs_open abort
  too_shallow n zero name last mode flag c h = refl
  too_shallow zero (suc fuel) name last mode flag c h = absurd (omega arith)
  too_shallow (suc n) (suc fuel) name last mode flag (follow _ _ next _ f c) h =
      tfs_open-follow fuel name next mode flag f
      ∙ too_shallow n fuel next last mode flag c (omega arith)

append-Chain :
    {e : ℕ → DirEntry} {s : Volume} (n m : ℕ) (name middle last : Name)
    → Chain e s n name middle
    → Chain e s m middle last
    → (k : ℕ) × (k ≡ n + m) × Chain e s k name last
append-Chain zero m name middle last (stop _) d = (m, omega arith, d)
append-Chain (suc n) m name middle last (follow _ _ next _ f c) d =
    let (k, q, cd) = append-Chain n m next middle last c d in
    (suc k, omega arith, follow k name next last f cd)

around :
    {e : ℕ → DirEntry} {s : Volume} (n : ℕ) (name : Name)
    → Chain e s (suc n) name name
    → (rounds : ℕ) → (k : ℕ) × (rounds ≤ k) × Chain e s k name name
around n name c zero = (zero, omega arith, stop name)
around n name c (suc rounds) =
    let (k, h, d) = around n name c rounds in
    let (l, q, cd) = append-Chain (suc n) k name name name c d in (l, omega arith, cd)

module _ {b : ℕ} {e : ℕ → DirEntry} (s : Volume) (v : IsValid b e s) (mode : ℕ)
    (flag : has_flag mode tfs_o_creat ≡ false) where
  -- On a valid volume, without O_CREAT, opening a symbolic link does what opening the path at the end
  -- of the chain of `n` links does, `n` levels of the recursion deeper.
  pub tfs_open-Chain :
      (n fuel : ℕ) (name last : Name)
      → Chain e s n name last
      → tfs_open (n + fuel) (some name) mode s ≡ tfs_open fuel (some last) mode s
  tfs_open-Chain n fuel name last c = tfs_open_deep v.inv v.unlocked n fuel name last mode flag c

  -- On a valid volume, without O_CREAT, opening a path on a cycle of symbolic links does not return,
  -- however deep the recursion may be.
  pub tfs_open-cycle :
      (n : ℕ) (name : Name)
      → Chain e s (suc n) name name
      → (fuel : ℕ) → tfs_open fuel (some name) mode s ≡ none
  tfs_open-cycle n name c fuel =
      let (k, h, d) = around n name c fuel in
      too_shallow v.inv v.unlocked k fuel name name mode flag d h
