-- ===== src/Tfs/Unlink.antt =====
-- `tfs_unlink` of fs2/operations.c: what it does branch by branch, and the invariant.
use so_project.Base.{
  ℕ, ◌<◌, ◌≡◌, refl, ◌∙◌, ◌≢◌, ◌↔◌, inl, inr, Bool, true, false, Option, none, some, update,
  update_self, ltb, ltb→lt, lt→ltb, Bool-cases, if◌then◌else◌, if_true, if_false, str_eq_refl, Name,
  str_eq, arith,
}
use so_project.Tfs.Types.{
  DirEntry, Inode, AllocationState, free, taken, entries, Fs, max_dir_entries,
}
use so_project.Base.Monad.{
  pure, ◌>>=◌, ◌>>◌, reads, modify, branch, always_assert, on_index, Ends, Ends-then, Ends-step,
  Ends-done, Ends-mono,
}
use so_project.Tfs.State.{inode_delete}
use so_project.Tfs.Operations.{valid_pathname, base_name, unlink_valid, tfs_unlink}
use so_project.Tfs.Valid.{FileOk, Root, Inv, IsValid, Inv-mutex}
use so_project.Tfs.Handles.{mutex_lock-eq, unlock_return-eq}
use so_project.Tfs.Directory.{find_name, IsEntry, find_name-cases, find_name-IsEntry}
use so_project.Tfs.DirUpdate.{blank, Directory-remove, find_name-remove}
use so_project.Tfs.DirCalls.{with_entries, clear_dir_entry-eq}
use so_project.Tfs.Steps.{
  lock, unlock, data_block_free-eq, base-length, tfs_lookup-eq, inode_get-eq,
}

-- The blocks after the file `n` has given up its own, if it has one.
abbrev pub without_block : Inode → (ℕ → AllocationState) → ℕ → AllocationState
without_block n states =
    if ltb 0 n.i_size
    then elim n.i_data_block [ none ↦ states | some d ↦ update states d free ]
    else states

abbrev pub delete_inode : ℕ → Fs → Fs
delete_inode i s = record s {
  freeinode_ts = update s.freeinode_ts i free;
  free_blocks = without_block (s.inode_table i) s.free_blocks;
}

pub inode_delete-eq :
    (b i : ℕ) (s : Fs)
    → i < s.fs_params.max_inode_count
    → s.freeinode_ts i ≡ taken
    → FileOk b s.fs_params (s.inode_table i)
    → inode_delete i s ≡ some (tt, delete_inode i s)
unfolding inode_delete ◌>>=◌ ◌>>◌ reads always_assert branch pure modify
inode_delete-eq b i s lt t ok = elim (Bool-cases (ltb 0 (s.inode_table i).i_size)) [
  | inr empty ↦ rw (lt→ltb _ _ lt, t, empty)
  | inl full_file ↦
      let (d, ed, ltd, ne) = ok.block_ok (ltb→lt _ _ full_file) in
      ground (arith, data_block_free-eq d s ltd)
]

-- The state after the entry `k` of file `i` is gone, and the file with it.
abbrev pub removed : ℕ → (ℕ → DirEntry) → ℕ → ℕ → Fs → Fs
removed b e i k s = with_entries b (update e k blank) (delete_inode i s)

module _ {b : ℕ} {e : ℕ → DirEntry} {s : Fs} (v : Inv b e s) (name : Name) (i k : ℕ)
    (h : IsEntry e (max_dir_entries s) name i k) where
  Root-deleted :
      let t = delete_inode i s in
      Root b e t.fs_params t.inode_table t.freeinode_ts t.fs_data t.free_blocks
  Root-deleted =
      let (lt, nz, t) = v.directory.listed k i h.0 h.1 in
      let ok : FileOk b s.fs_params (s.inode_table i) = v.storage.file_ok i nz t in
      record {
        small = v.root.small;
        root_in = v.root.root_in;
        root_taken = ground (arith, v.root.root_taken);
        root_type = v.root.root_type;
        root_block = v.root.root_block;
        block_in = v.root.block_in;
        block_taken = ground (arith, v.root.block_taken);
        block_entries = v.root.block_entries;
      }

  pub Inv-removed : Inv b (update e k blank) (removed b e i k s)
  Inv-removed =
      let (lt, nz, t) = v.directory.listed k i h.0 h.1 in
      let ok : FileOk b s.fs_params (s.inode_table i) = v.storage.file_ok i nz t in
      record {
        root = record {
          small = Root-deleted.small;
          root_in = Root-deleted.root_in;
          root_taken = Root-deleted.root_taken;
          root_type = Root-deleted.root_type;
          root_block = Root-deleted.root_block;
          block_in = Root-deleted.block_in;
          block_taken = Root-deleted.block_taken;
          block_entries = update_self s.fs_data b (entries (update e k blank));
        };
        directory = Directory-remove v.directory k i name h;
        storage = record {
          file_ok = λ j nzj tj. v.storage.file_ok j nzj (ground arith);
          owned =
              λ j c nzj tj pos ej. ground (arith, v.storage.owned j c, v.storage.disjoint i j c);
          disjoint =
              λ j l c nzj nzl tj tl posj posl ej el. ground (arith, v.storage.disjoint j l c);
          plain = λ d ne. let (c, q) = v.storage.plain d ne in (c, ground arith);
        };
        handles = v.handles;
      }

-- What `tfs_unlink` does, for the root directory `e` in block `b`.
pub data Unlinks (b : ℕ) (e : ℕ → DirEntry) (target : Option Name) (s : Fs) (r : Bool) (s' : Fs)
    : Type 0 where
  invalid : valid_pathname target ≡ false → r ≡ false → s' ≡ unlock s → Unlinks b e target s r s'
  missing :
      valid_pathname target ≡ true
      → find_name e (max_dir_entries s) (base_name target) ≡ none
      → r ≡ false
      → s' ≡ unlock s
      → Unlinks b e target s r s'
  unlinks :
      (i k : ℕ)
      → valid_pathname target ≡ true
      → IsEntry e (max_dir_entries s) (base_name target) i k
      → r ≡ true
      → s' ≡ unlock (removed b e i k s)
      → Unlinks b e target s r s'

module _ {b : ℕ} {e : ℕ → DirEntry} (s : Fs) (v : Inv b e s) (target : Option Name) where
  unlink_valid-Unlinks :
      valid_pathname target ≡ true → Ends (Unlinks b e target s) (unlink_valid target (lock s))
  unfolding unlink_valid on_index branch
  unlink_valid-Unlinks ok = Ends-step _ _ (lock s) (inode_get-eq 0 (lock s) v.root.root_in) (
      Ends-step _ _ (lock s) (tfs_lookup-eq (lock s) target v.root ok)
        (elim (find_name-cases v.directory.names (base_name target)) [
          | inl (q, none_such) ↦
              rw q (Ends-done (unlock_return-eq false (lock s)) (missing ok q refl refl))
          | inr (i, q, (k, h)) ↦
              let (lt, nz, t) = v.directory.listed k i h.0 h.1 in
              rw q (
                Ends-then _ _ (lock s)
                  (inode_delete-eq b i (lock s) lt t (v.storage.file_ok i nz t))
                  (Ends-step _ _ (delete_inode i (lock s))
                    (clear_dir_entry-eq (delete_inode i (lock s))
                      (Root-deleted (Inv-mutex true v) (base_name target) i k h) (base_name target)
                      i k v.directory.names (base-length target ok) h)
                    (Ends-done (unlock_return-eq true _) (unlinks i k ok h refl refl))))
        ]))

-- From a valid state, `tfs_unlink` returns, with one of the outcomes of `Unlinks`.
pub tfs_unlink-Unlinks :
    {b : ℕ} {e : ℕ → DirEntry} (s : Fs) (target : Option Name)
    → IsValid b e s
    → Ends (Unlinks b e target s) (tfs_unlink target s)
unfolding tfs_unlink branch
tfs_unlink-Unlinks s target v =
    Ends-then _ _ s (mutex_lock-eq s v.unlocked) (elim (Bool-cases (valid_pathname target)) [
      | inl ok ↦ rw ok (unlink_valid-Unlinks s v.inv target ok)
      | inr bad ↦ rw bad (Ends-done (unlock_return-eq false (lock s)) (invalid bad refl refl))
    ])

-- A valid state after `tfs_unlink`: the name is gone when it succeeds, and all others stay.
pub record Unlinked (b : ℕ) (e : ℕ → DirEntry) (target : Option Name) (s : Fs) (r : Bool) (s' : Fs)
    : Type 0 where
  pub entries_after : ℕ → DirEntry
  pub valid : IsValid b entries_after s'
  pub succeeds : (r ≡ true) ↔ (
      (valid_pathname target ≡ true) × (find_name e (max_dir_entries s) (base_name target) ≢ none))
  pub gone : r ≡ true → find_name entries_after (max_dir_entries s) (base_name target) ≡ none
  pub others :
      (other : Name)
      → str_eq (base_name target) other ≡ false
      → find_name entries_after (max_dir_entries s) other ≡ find_name e (max_dir_entries s) other

ne_none : {o : Option ℕ} {i : ℕ} → o ≡ some i → o ≢ none
ne_none p q = cc

Unlinks-Unlinked :
    {b : ℕ} {e : ℕ → DirEntry} (s : Fs) (target : Option Name) (r : Bool) (s' : Fs)
    → Inv b e s
    → Unlinks b e target s r s'
    → Unlinked b e target s r s'
Unlinks-Unlinked {e} s target r s' v (invalid bad er es) = record {
  entries_after = e;
  valid = rw es (record { inv = Inv-mutex false v; unlocked = refl });
  succeeds = (λ h. cc, λ h. absurd (ground arith));
  gone = λ h. cc;
  others = λ other d. refl;
}
Unlinks-Unlinked {e} s target r s' v (missing ok none_such er es) = record {
  entries_after = e;
  valid = rw es (record { inv = Inv-mutex false v; unlocked = refl });
  succeeds = (λ h. cc, λ h. absurd (h.1 none_such));
  gone = λ h. cc;
  others = λ other d. refl;
}
Unlinks-Unlinked {e} s target r s' v (unlinks i k ok h er es) =
    let after = find_name-remove v.directory.names k i (base_name target) h in
    record {
      entries_after = update e k blank;
      valid = rw es (record {
        inv = Inv-mutex false (Inv-removed v (base_name target) i k h);
        unlocked = refl;
      });
      succeeds = (
        λ _. (ok, λ q. ne_none (find_name-IsEntry v.directory.names (base_name target) i k h) q),
        λ _. er,
      );
      gone = λ _. after (base_name target) ∙ if_true _ _ _ (str_eq_refl (base_name target));
      others = λ other d. after other ∙ if_false _ _ _ d;
    }

-- From a valid state, `tfs_unlink` returns in a valid state. It succeeds exactly when the path is
-- valid and the name is in the root directory; then the name is gone. No other name is touched.
pub tfs_unlink-Unlinked :
    {b : ℕ} {e : ℕ → DirEntry} (s : Fs) (target : Option Name)
    → IsValid b e s
    → Ends (Unlinked b e target s) (tfs_unlink target s)
tfs_unlink-Unlinked s target v =
    Ends-mono (tfs_unlink-Unlinks s target v) (λ r s'. Unlinks-Unlinked s target r s' v.inv)
