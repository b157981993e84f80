-- ===== src/Tfs/OpenLaws.antt =====
-- `tfs_open` of fs2/operations.c: the invariant, the names of the directory, and the handle.
use so_project.Base.{
  ℕ, ◌≤◌, ◌<◌, ◌≡◌, refl, sym, ap, ◌∙◌, ◌≢◌, inl, inr, Bool, true, false, Option, none, some,
  update, update_self, subst, if_true, if_false, str_eq_refl, Bool-cases, if◌then◌else◌, Name,
  str_eq, str_eq→eq, arith,
}
use so_project.Tfs.Types.{DirEntry, AllocationState, taken, TfsParams, Fs, max_dir_entries}
use so_project.Base.Monad.{Ends, Ends-mono}
use so_project.Tfs.Operations.{has_flag, tfs_o_trunc, tfs_o_append, base_name, tfs_open}
use so_project.Tfs.Valid.{FileOk, Inv, IsValid, Inv-mutex}
use so_project.Tfs.Directory.{find_name, find_name-listed}
use so_project.Tfs.DirUpdate.{used, find_name-add}
use so_project.Tfs.DirCalls.{with_entries}
use so_project.Tfs.Steps.{
  lock, unlock, Enters, truncate_if, truncate_if-frame, start_offset, empty_file, with_inode,
}
use so_project.Tfs.StepInv.{
  Inv-with_file, Inv-truncate_if, Inv-with_free_inode, Inv-insert, empty_file-FileOk,
}
use so_project.Tfs.Open.{
  Opens, invalid, absent, existing, no_inode, no_entry, created, free-ne-Root, tfs_open-Opens,
}

-- A valid state after `tfs_open`: names are kept, at most the path's own is new, and a handle
-- refers to the file of that name.
pub record Opened (b : ℕ) (e : ℕ → DirEntry) (name : Option Name) (s : Fs) (r : Option ℕ) (s' : Fs)
    : Type 0 where
  pub entries_after : ℕ → DirEntry
  pub valid : IsValid b entries_after s'
  pub same_params : s'.fs_params ≡ s.fs_params
  pub kept :
      (other : Name) (i : ℕ)
      → find_name e (max_dir_entries s) other ≡ some i
      → find_name entries_after (max_dir_entries s) other ≡ some i
  pub others :
      (other : Name)
      → str_eq (base_name name) other ≡ false
      → find_name entries_after (max_dir_entries s) other ≡ find_name e (max_dir_entries s) other
  pub handle :
      (h : ℕ)
      → r ≡ some h
      → (h < s.fs_params.max_open_files_count)
        × (s'.free_open_file_entries h ≡ taken)
        × (find_name entries_after (max_dir_entries s) (base_name name)
            ≡ some (s'.open_file_table h).of_inumber)

pub offset-le : (c : Bool) (size limit : ℕ) → size ≤ limit → (if c then size else 0) ≤ limit
offset-le true size limit h = h
offset-le false size limit h = omega arith

module _ {b : ℕ} {e : ℕ → DirEntry} (s : Fs) (name : Option Name) (r : Option ℕ) (s' : Fs) where
  refused-Opened : Inv b e s → r ≡ none → s' ≡ unlock s → Opened b e name s r s'
  refused-Opened v er es = record {
    entries_after = e;
    valid = rw es (record { inv = Inv-mutex false v; unlocked = refl });
    same_params = rw es;
    kept = λ other i q. q;
    others = λ other d. refl;
    handle = λ h q. cc;
  }

  -- The last step, from a state with the entries `f`.
  Enters-Opened :
      (f : ℕ → DirEntry) (i offset : ℕ) (t : Fs)
      → Inv b f t
      → t.fs_params ≡ s.fs_params
      → i < t.fs_params.max_inode_count
      → i ≢ 0
      → offset ≤ t.fs_params.block_size
      → FileOk b t.fs_params (t.inode_table i)
      → find_name f (max_dir_entries s) (base_name name) ≡ some i
      → ((other : Name) (k : ℕ)
          → find_name e (max_dir_entries s) other ≡ some k
          → find_name f (max_dir_entries s) other ≡ some k)
      → ((other : Name)
          → str_eq (base_name name) other ≡ false
          → find_name f (max_dir_entries s) other ≡ find_name e (max_dir_entries s) other)
      → Enters i offset t r s'
      → Opened b e name s r s'
  Enters-Opened f i offset t v same lt nz le ok q kept others (inl (er, es, all)) = record {
    entries_after = f;
    valid = rw es (record { inv = Inv-mutex false v; unlocked = refl });
    same_params = rw es same;
    kept = kept;
    others = others;
    handle = λ h q. cc;
  }
  Enters-Opened f i offset t v same lt nz le ok q kept others (inr (h, er, es, lth, fr)) = record {
    entries_after = f;
    valid = rw es (record {
      inv = Inv-mutex false (Inv-with_file v h i offset lt nz le ok);
      unlocked = refl;
    });
    same_params = rw es same;
    kept = kept;
    others = others;
    handle = λ k ek. (ground arith, ground arith, ground arith);
  }

  -- Every outcome of `tfs_open` leaves such a state.
  Opens-Opened : (mode : ℕ) → Inv b e s → Opens b e name mode s r s' → Opened b e name s r s'
  Opens-Opened mode v (invalid bad er es) = refused-Opened v er es
  Opens-Opened mode v (absent ok none_such creat er es) = refused-Opened v er es
  Opens-Opened mode v (no_inode ok none_such creat all er es) = refused-Opened v er es
  Opens-Opened mode v (no_entry i ok none_such creat lt fr why er es) = record {
    entries_after = e;
    valid = rw es (record { inv = Inv-mutex false (Inv-with_free_inode v i fr); unlocked = refl });
    same_params = rw es;
    kept = λ other k q. q;
    others = λ other d. refl;
    handle = λ h q. cc;
  }
  Opens-Opened mode v (existing i ok q entered) =
      let c = has_flag mode tfs_o_trunc in
      let t = truncate_if c i (lock s) in
      let (lt, nz, tk) = find_name-listed v.directory (base_name name) i q in
      let w : Inv b e t = Inv-truncate_if (Inv-mutex true v) c i nz tk in
      let (same, states) = truncate_if-frame c i (lock s) in
      let file : FileOk b t.fs_params (t.inode_table i) =
        w.storage.file_ok i nz (ap (λ (f : ℕ → AllocationState). f i) states ∙ tk) in
      Enters-Opened e i (start_offset mode i t) t w same
        (subst (λ (p : TfsParams). i < p.max_inode_count) (sym same) lt) nz
        (offset-le (has_flag mode tfs_o_append) _ _ file.size_le) file q (λ other k found. found)
        (λ other d. refl) entered
  Opens-Opened mode v (created i j ok none_such creat lt fr ltj frj long short entered) =
      Enters-Opened (update e j (used (base_name name) i)) i 0
        (with_entries b (update e j (used (base_name name) i)) (with_inode i (lock s)))
        (Inv-insert (Inv-mutex true v) i j (base_name name) none_such lt fr ltj frj long short) refl
        lt (free-ne-Root s v.root fr) (omega arith)
        (subst (FileOk b s.fs_params) (sym (update_self s.inode_table i empty_file))
          (empty_file-FileOk b s.fs_params))
        (found (base_name name) ∙ if_true _ _ _ (str_eq_refl (base_name name)))
        (λ other k q. found other ∙ if_false _ _ _ (new_name other k q) ∙ q)
        (λ other d. found other ∙ if_false _ _ _ d) entered
    where
      -- A name that was found is not the new one.
      new_name :
          (other : Name) (k : ℕ)
          → find_name e (max_dir_entries s) other ≡ some k
          → str_eq (base_name name) other ≡ false
      new_name other k q = elim (Bool-cases (str_eq (base_name name) other)) [
        | inr d ↦ d
        | inl same ↦
            let p = ap (find_name e (max_dir_entries s)) (str_eq→eq _ _ same) in
            absurd (ground arith)
      ]

      found :
          (other : Name)
          → find_name (update e j (used (base_name name) i)) (max_dir_entries s) other ≡ (
              if str_eq (base_name name) other
              then some i
              else find_name e (max_dir_entries s) other)
      found = find_name-add v.directory.names j i (base_name name) ltj frj long short none_such

-- From a valid state, `tfs_open` returns in a valid state. Every name found before is found with
-- the same inumber, no name but the path's own is new, and a handle that is returned is in use and
-- refers to the file of that name.
pub tfs_open-Opened :
    {b : ℕ} {e : ℕ → DirEntry} (s : Fs) (name : Option Name) (mode : ℕ)
    → IsValid b e s
    → Ends (Opened b e name s) (tfs_open name mode s)
tfs_open-Opened s name mode v =
    Ends-mono (tfs_open-Opens s name mode v) (λ r s'. Opens-Opened s name r s' mode v.inv)
