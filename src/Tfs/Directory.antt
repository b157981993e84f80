-- ===== src/Tfs/Directory.antt =====
-- The root directory of fs2/state.c as a map from names to inumbers: what `find_in_dir`,
-- `add_dir_entry` and `clear_dir_entry` do with it.
use so_project.Base.{
  ℕ, ◌≤◌, ◌<◌, ◌≡◌, refl, sym, ap, ◌∙◌, ◌≢◌, ◌⊎◌, inl, inr, true, Option, none, some, first_index,
  first_index-Found, Option-cases, Name, [], ◌∷◌, length, take, str_eq→eq, eq→str_eq, arith,
}
use mathlib.Core.Bool.{false≢true}
use so_project.Tfs.Types.{DirEntry, AllocationState, taken}
use so_project.Tfs.State.{is_entry_of}
use so_project.Tfs.Valid.{Names, Directory}

-- The abstract lookup: the inumber of the first used entry of that name.
unfoldable pub find_name : (ℕ → DirEntry) → ℕ → Name → Option ℕ
find_name e n name = elim (first_index (λ k. is_entry_of name (e k)) n 0) [
  | none ↦ none
  | some k ↦ (e k).d_inumber
]

abbrev pub IsEntry : (ℕ → DirEntry) → ℕ → Name → ℕ → ℕ → Type 0
IsEntry e n name i k = (k < n) × ((e k).d_inumber ≡ some i) × ((e k).d_name ≡ name)

length-take-le : (n : ℕ) (xs : Name) → length (take n xs) ≤ n
length-take-le ℕ.zero xs = omega arith
length-take-le (ℕ.suc n) [] = omega arith
length-take-le (ℕ.suc n) (x ∷ xs) = omega (arith, length-take-le n xs)

-- A comparison of forty characters is equality, for a name that fits an entry.
take-injective : (n : ℕ) (a name : Name) → length a < n → take n a ≡ take n name → a ≡ name
take-injective ℕ.zero a name h e = absurd (omega arith)
take-injective (ℕ.suc n) [] [] h e = refl
take-injective (ℕ.suc n) [] (y ∷ ys) h e = cc
take-injective (ℕ.suc n) (x ∷ xs) [] h e = cc
take-injective (ℕ.suc n) (x ∷ xs) (y ∷ ys) h e = ground (arith, take-injective n xs ys)

module _ {n : ℕ} {e : ℕ → DirEntry} (v : Names n e) where
  IsEntry-of→ :
      (k : ℕ) (name : Name) → k < n → is_entry_of name (e k) ≡ true → (i : ℕ) × IsEntry e n name i k
  IsEntry-of→ k name lt h = elim (Option-cases (e k).d_inumber) [
    | inl e0 ↦ ground arith
    | inr (i, e1) ↦
        (i, (lt, e1, take-injective 40 _ _ (v.named k i lt e1).1 (str_eq→eq _ _ (ground arith))))
  ]

  IsEntry-of← : (k i : ℕ) (name : Name) → IsEntry e n name i k → is_entry_of name (e k) ≡ true
  IsEntry-of← k i name (lt, e1, q) = rw (e1, q) (eq→str_eq _ _ refl)

  -- A name is found exactly when some entry in use bears it, and then its inumber is the result.
  pub find_name-cases :
      (name : Name)
      → ((find_name e n name ≡ none) × ((k i : ℕ) → ¬ IsEntry e n name i k))
        ⊎ ((i : ℕ) × (find_name e n name ≡ some i) × ((k : ℕ) × IsEntry e n name i k))
  unfolding find_name
  find_name-cases name = elim (first_index-Found (λ k. is_entry_of name (e k)) n) [
    | inl (q, all) ↦
        inl (rw (q, find_name), λ k i h. false≢true (sym (all k h.0) ∙ IsEntry-of← k i name h))
    | inr (k, q, lt, t, m) ↦
        let (i, h) = IsEntry-of→ k name lt t in inr (i, rw (q, find_name) h.1, (k, h))
  ]

  pub find_name-IsEntry :
      (name : Name) (i k : ℕ) → IsEntry e n name i k → find_name e n name ≡ some i
  find_name-IsEntry name i k h = elim (find_name-cases name) [
    | inl (q, none_such) ↦ absurd (none_such k i h)
    | inr (j, q, (l, h')) ↦
        let same : l ≡ k = v.same_name l k j i h'.0 h.0 h'.1 h.1 (h'.2 ∙ sym h.2) in
        q ∙ sym h'.1 ∙ ap (λ x. (e x).d_inumber) same ∙ h.1
  ]

  pub find_name-none :
      (name : Name) → ((k i : ℕ) → ¬ IsEntry e n name i k) → find_name e n name ≡ none
  find_name-none name none_such = elim (find_name-cases name) [
    | inl (q, _) ↦ q
    | inr (j, q, (l, h)) ↦ absurd (none_such l j h)
  ]

  find_name-found :
      (name : Name) (i : ℕ) → find_name e n name ≡ some i → (k : ℕ) × IsEntry e n name i k
  find_name-found name i q = elim (find_name-cases name) [
    | inl (q', none_such) ↦ absurd (ground arith)
    | inr (j, q', (k, h)) ↦ (k, ground arith)
  ]

-- What is found is a file: a taken inode that is not the root's.
pub find_name-listed :
    {n m : ℕ} {st : ℕ → AllocationState} {e : ℕ → DirEntry} (v : Directory n m st e) (name : Name)
    (i : ℕ)
    → find_name e n name ≡ some i
    → (i < m) × (i ≢ 0) × (st i ≡ taken)
find_name-listed v name i q = let (k, h) = find_name-found v.names name i q in v.listed k i h.0 h.1
