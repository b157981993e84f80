-- ===== src/Tfs/Reopen.antt =====
-- `tfs_open` of fs2/operations.c on a name of the directory, in a mode that does not truncate.
use mathlib.Core.Option.{some-injective}
use so_project.Base.{
  ℕ, ◌<◌, ◌≡◌, sym, ◌∙◌, subst, inl, inr, true, false, Option, some, Name, if◌then◌else◌, arith,
}
use so_project.Base.Monad.{Ends, Ends-mono}
use so_project.Tfs.Types.{DirEntry, free, Fs, max_dir_entries}
use so_project.Tfs.Operations.{
  has_flag, tfs_o_trunc, tfs_o_append, valid_pathname, base_name, tfs_open,
}
use so_project.Tfs.Valid.{IsValid}
use so_project.Tfs.Directory.{find_name, find_name-listed}
use so_project.Tfs.Steps.{lock, Enters, with_file, start_offset, truncate_if}
use so_project.Tfs.StepInv.{Inv-with_file}
use so_project.Tfs.Handles.{relock}
use so_project.Tfs.Open.{
  Opens, invalid, absent, existing, no_inode, no_entry, created, tfs_open-Opens,
}
use so_project.Tfs.OpenLaws.{offset-le}
use so_project.Tfs.Contents.{file_size}

-- A handle that was free refers to file `x`, at its end or at its start; all else is as before.
pub record Reopened (b : ℕ) (e : ℕ → DirEntry) (mode x : ℕ) (s : Fs) (r : Option ℕ) (s' : Fs)
    : Type 0 where
  pub h : ℕ
  pub result : r ≡ some h
  pub in_table : h < s.fs_params.max_open_files_count
  pub was_free : s.free_open_file_entries h ≡ free
  pub after : s' ≡ with_file h x (if has_flag mode tfs_o_append then file_size s x else 0) s
  pub valid : IsValid b e s'

pub tfs_open-Reopened :
    {b : ℕ} {e : ℕ → DirEntry} (s : Fs) (name : Option Name) (mode x h : ℕ)
    → IsValid b e s
    → valid_pathname name ≡ true
    → find_name e (max_dir_entries s) (base_name name) ≡ some x
    → has_flag mode tfs_o_trunc ≡ false
    → h < s.fs_params.max_open_files_count
    → s.free_open_file_entries h ≡ free
    → Ends (Reopened b e mode x s) (tfs_open name mode s)
tfs_open-Reopened {b} {e} s name mode x h v path found keep lt fr =
    Ends-mono (tfs_open-Opens s name mode v) (λ r s' o. outcome r s' o)
  where
    entered :
        (r : Option ℕ) (s' : Fs)
        → Enters x (start_offset mode x (lock s)) (lock s) r s'
        → Reopened b e mode x s r s'
    entered r s' (inl (er, es, all)) = absurd (ground (arith, all h lt))
    entered r s' (inr (k, er, es, ltk, frk)) =
        let offset = if has_flag mode tfs_o_append then file_size s x else 0 in
        let (in_table, nz, tk) = find_name-listed v.inv.directory (base_name name) x found in
        let ok = v.inv.storage.file_ok x nz tk in
        let same = es ∙ relock (with_file k x offset s) v.unlocked in
        record {
          h = k;
          result = er;
          in_table = ltk;
          was_free = frk;
          after = same;
          valid = rw same (record {
            inv =
                Inv-with_file v.inv k x offset in_table nz
                  (offset-le (has_flag mode tfs_o_append) _ _ ok.size_le) ok;
            unlocked = v.unlocked;
          });
        }

    outcome : (r : Option ℕ) (s' : Fs) → Opens b e name mode s r s' → Reopened b e mode x s r s'
    outcome r s' (invalid bad er es) = absurd (ground arith)
    outcome r s' (absent ok missing creat er es) = absurd (ground arith)
    outcome r s' (no_inode ok missing creat all er es) = absurd (ground arith)
    outcome r s' (no_entry i ok missing creat lti fri why er es) = absurd (ground arith)
    outcome r s' (created i j ok missing creat lti fri ltj frj long short en) =
        absurd (ground arith)
    outcome r s' (existing i ok q en) =
        let same : i ≡ x = some-injective _ _ (sym q ∙ found) in
        entered r s' (
          subst (λ y. Enters y (start_offset mode y (lock s)) (lock s) r s') same
            (subst
              (λ c.
                Enters i (start_offset mode i (truncate_if c i (lock s))) (truncate_if c i (lock s))
                  r s')
              keep en))
