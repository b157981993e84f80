-- ===== src/Broker/Reading.antt =====
-- `read_message` of mbroker/box.c on a handle of a file that holds the message there.
use so_project.Base.{
  ℕ, zero, suc, ◌+◌, ◌-◌, ◌≤◌, ◌<◌, ◌≡◌, refl, sym, ap, ◌∙◌, ◌≢◌, inl, inr, subst, false, Option,
  some, List, [], ◌∷◌, ◌++◌, Name, length, ◌==◌, arith,
}
use so_project.Tfs.Types.{DirEntry, taken, Fs}
use so_project.Base.Monad.{branch, pure-eq, Ends, Ends->>=, Ends-done, Ends-mono}
use so_project.Tfs.Operations.{slice, tfs_read}
use so_project.Tfs.Valid.{IsValid}
use so_project.Tfs.Contents.{byte_at, file_size}
use so_project.Tfs.Read.{Read, tfs_read-Read}
use so_project.Protocol.Memory.{char_at, IsText}
use so_project.Broker.Boxes.{read_message, read_on}

-- File `i` holds the bytes `l` from `p` on.
pub record Holds (i p : ℕ) (l : List ℕ) (s : Fs) : Type 0 where
  pub within : p + length l ≤ file_size s i
  pub same : (q : ℕ) → q < length l → byte_at s i (p + q) ≡ char_at l q

-- Open handle `k` passes over `n` bytes, and nothing else changes.
pub record Passes (b : ℕ) (e : ℕ → DirEntry) (k n : ℕ) (s s' : Fs) : Type 0 where
  pub valid : IsValid b e s'
  pub offset : (s'.open_file_table k).of_offset ≡ (s.open_file_table k).of_offset + n
  pub same_file : (s'.open_file_table k).of_inumber ≡ (s.open_file_table k).of_inumber
  pub other_handles : (j : ℕ) → j ≢ k → s'.open_file_table j ≡ s.open_file_table j
  pub rest : s' ≡ record s { open_file_table = s'.open_file_table }

-- A handle that can be read.
pub record Readable (b : ℕ) (e : ℕ → DirEntry) (k : ℕ) (s : Fs) : Type 0 where
  pub valid : IsValid b e s
  pub in_table : k < s.fs_params.max_open_files_count
  pub opened : s.free_open_file_entries k ≡ taken
  pub offset_le : (s.open_file_table k).of_offset ≤ file_size s (s.open_file_table k).of_inumber

-- The file of handle `k` holds `l` where the handle stands.
abbrev pub HoldsHere : ℕ → List ℕ → Fs → Type 0
HoldsHere k l s = Holds (s.open_file_table k).of_inumber (s.open_file_table k).of_offset l s

head-Holds : {i p : ℕ} {c : ℕ} {l : List ℕ} {s : Fs} → Holds i p (c ∷ l) s → byte_at s i p ≡ c
unfolding char_at
head-Holds {i} {p} {c} {s} h =
    let here : p + 0 ≡ p = omega arith in ap (byte_at s i) (sym here) ∙ h.same 0 (omega arith)

char_at-cons : (c : ℕ) (l : List ℕ) (q : ℕ) → char_at (c ∷ l) (q + 1) ≡ char_at l q
unfolding char_at
char_at-cons c l q =
    let z : (q + 1 == 0) ≡ false = ground arith in
    let same : q + 1 - 1 ≡ q = omega arith in rw (z, same) refl

tail-Holds : {i p : ℕ} {c : ℕ} {l : List ℕ} {s : Fs} → Holds i p (c ∷ l) s → Holds i (p + 1) l s
tail-Holds {i} {p} {c} {l} {s} h = record {
  within = let fits = h.within in omega arith;
  same = λ q lt.
      let here : p + 1 + q ≡ p + (q + 1) = omega arith in
      ap (byte_at s i) here ∙ h.same (q + 1) (omega arith) ∙ char_at-cons c l q;
}

slice_one : (f : ℕ → ℕ) (p : ℕ) → slice f p 1 ≡ f p ∷ []
unfolding slice
slice_one f p = refl

module _ {b : ℕ} {e : ℕ → DirEntry} {k : ℕ} where
  Passes-trans :
      {n m : ℕ} {s t u : Fs} → Passes b e k n s t → Passes b e k m t u → Passes b e k (n + m) s u
  Passes-trans {u} p q = record {
    valid = q.valid;
    offset = omega (arith, p.offset, q.offset);
    same_file = q.same_file ∙ p.same_file;
    other_handles = λ j ne. q.other_handles j ne ∙ p.other_handles j ne;
    rest = q.rest ∙ ap (λ (v : Fs). record v { open_file_table = u.open_file_table }) p.rest;
  }

  -- What a read leaves of the files.
  pub Passes-Holds :
      {i p n : ℕ} {l : List ℕ} {s s' : Fs} → Passes b e k n s s' → Holds i p l s → Holds i p l s'
  Passes-Holds {i} {p} {l} {s'} m h =
      subst (Holds i p l) (sym m.rest) (record { within = h.within; same = h.same })

  Readable-Passes :
      {n : ℕ} {s s' : Fs}
      → Readable b e k s
      → (s.open_file_table k).of_offset + n ≤ file_size s (s.open_file_table k).of_inumber
      → Passes b e k n s s'
      → Readable b e k s'
  Readable-Passes {n} {s} {s'} r le m =
      let params : s'.fs_params ≡ s.fs_params = ap (λ (t : Fs). t.fs_params) m.rest in
      let states : s'.free_open_file_entries ≡ s.free_open_file_entries =
        ap (λ (t : Fs). t.free_open_file_entries) m.rest in
      let sizes : file_size s' ≡ file_size s = ap file_size m.rest in
      record {
        valid = m.valid;
        in_table = rw params r.in_table;
        opened = rw states r.opened;
        offset_le = rw (sizes, m.same_file, m.offset) le;
      }

  Read-Passes :
      (c : ℕ) (s : Fs) (r : Option ℕ × List ℕ) (s' : Fs)
      → (s.open_file_table k).of_offset + 1 ≤ file_size s (s.open_file_table k).of_inumber
      → byte_at s (s.open_file_table k).of_inumber (s.open_file_table k).of_offset ≡ c
      → Read b e k 1 s r s'
      → (r ≡ (some 1, c ∷ [])) × Passes b e k 1 s s'
  Read-Passes c s (n, out) s' le at_c rd =
      let most = rd.at_most in
      let one : rd.n ≡ 1 = elim rd.exact [ inl q ↦ q | inr q ↦ omega arith ] in
      let i = (s.open_file_table k).of_inumber in
      let p = (s.open_file_table k).of_offset in
      let en : n ≡ some 1 = rd.count ∙ ap some one in
      let eo : out ≡ c ∷ [] =
        rd.out
        ∙ ap (slice (byte_at s i) p) one
        ∙ slice_one (byte_at s i) p
        ∙ ap (λ x. x ∷ []) at_c in
      (
        rw (en, eo) refl,
        record {
          valid = rd.valid;
          offset = omega (arith, rd.offset);
          same_file = rd.same_file;
          other_handles = rd.other_handles;
          rest = rd.rest;
        },
      )

  -- One byte that the file holds is read.
  tfs_read-Passes :
      (c : ℕ) (l : List ℕ) (s : Fs)
      → Readable b e k s
      → HoldsHere k (c ∷ l) s
      → Ends (λ r s'. (r ≡ (some 1, c ∷ [])) × Passes b e k 1 s s') (tfs_read (some k) 1 s)
  tfs_read-Passes c l s r h =
      Ends-mono (tfs_read-Read s k 1 r.valid r.in_table r.opened r.offset_le)
        (λ q s'. Read-Passes c s q s' (let fits = h.within in omega arith) (head-Holds h))

  -- A message that the file holds, its zero included, is read where the handle stands; enough fuel
  -- is more than the message's length.
  pub read_message-Passes :
      (message : Name) (fuel : ℕ) (s : Fs)
      → Readable b e k s
      → IsText message
      → HoldsHere k (message ++ (0 ∷ [])) s
      → length message < fuel
      → Ends
          (λ r s'. (r ≡ some (message ++ (0 ∷ []))) × Passes b e k (length message + 1) s s')
          (read_message fuel (some k) s)
  unfolding read_message read_on branch char_at
  read_message-Passes message zero s r t h lt = absurd (omega arith)
  read_message-Passes [] (suc fuel) s r t h lt =
      Ends->>= _ _ s (tfs_read-Passes 0 [] s r h)
        λ q s' (eq, m). rw eq (Ends-done (pure-eq (some (0 ∷ [])) s') (refl, m))
  read_message-Passes (c ∷ message) (suc fuel) s r t h lt =
      Ends->>= _ _ s (tfs_read-Passes c (message ++ (0 ∷ [])) s r h) λ q s' (eq, m).
        let inside : (c == 0) ≡ false = ground (arith, t 0 (omega arith)) in
        let fits = h.within in
        let r' = Readable-Passes r (omega arith) m in
        let h' : HoldsHere k (message ++ (0 ∷ [])) s' =
          rw (m.same_file, m.offset) (Passes-Holds m (tail-Holds h)) in
        let t' : IsText message =
          λ p ltp z. t (p + 1) (omega arith) (char_at-cons c message p ∙ z) in
        rw (eq, inside)
          (Ends->>= _ _ s' (read_message-Passes message fuel s' r' t' h' (omega arith))
            λ more u (em, rest). rw em (
              Ends-done (pure-eq _ u)
                (refl, subst (λ x. Passes b e k x s u) (omega arith) (Passes-trans m rest))))
