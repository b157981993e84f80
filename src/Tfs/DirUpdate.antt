-- ===== src/Tfs/DirUpdate.antt =====
-- Adding an entry to the root directory and clearing one: the invariant, and later lookups.
use so_project.Base.{
  ℕ, ◌<◌, ◌≡◌, ◌≢◌, inl, inr, none, some, update, update_self, ◌==◌, Bool-cases, Name, [], length,
  str_eq, str_eq→eq, eq→str_eq, if◌then◌else◌, arith,
}
use so_project.Tfs.Types.{max_file_name, DirEntry, AllocationState, free, taken}
use so_project.Tfs.Valid.{Names, Directory}
use so_project.Tfs.Directory.{
  find_name, IsEntry, find_name-cases, find_name-IsEntry, find_name-none,
}

abbrev pub used : Name → ℕ → DirEntry
used name i = record { d_name = name; d_inumber = some i }

abbrev pub blank : DirEntry
blank = record { d_name = []; d_inumber = none }

module _ {n : ℕ} {e : ℕ → DirEntry} (v : Names n e) where
  module _ (j i : ℕ) (name : Name) (j_in : j < n) (j_free : (e j).d_inumber ≡ none)
      (long : 0 < length name) (short : length name < max_file_name)
      (new : find_name e n name ≡ none) where
    no-IsEntry : (k l : ℕ) → ¬ IsEntry e n name l k
    no-IsEntry k l h = elim (find_name-cases v name) [
      | inl (q, none_such) ↦ none_such k l h
      | inr (x, q, h') ↦ ground arith
    ]

    pub Names-add : Names n (update e j (used name i))
    Names-add = record {
      named = λ k l lt h. ground (arith, v.named k l);
      blank = λ k lt h. ground (arith, v.blank k);
      same_name = λ k l x y ltk ltl hk hl q.
          ground (arith, v.same_name k l x y, no-IsEntry k x, no-IsEntry l y);
    }

    -- The new name is found, and every other lookup is as before.
    pub find_name-add :
        (other : Name)
        → find_name (update e j (used name i)) n other
          ≡ (if str_eq name other then some i else find_name e n other)
    find_name-add other = elim (Bool-cases (str_eq name other)) [
      | inl same ↦ rw same (
          find_name-IsEntry Names-add other i j
            (j_in, ground arith, rw (update_self e j (used name i)) (str_eq→eq _ _ same)))
      | inr differ ↦ rw differ (elim (find_name-cases v other) [
        | inl (q, none_such) ↦ rw q (
            find_name-none Names-add other
              (λ k l h. ground (arith, none_such k l, eq→str_eq name other)))
        | inr (x, q, (k, h)) ↦
            rw q (find_name-IsEntry Names-add other x k (h.0, ground arith, ground arith))
      ])
    ]

  module _ (j i : ℕ) (name : Name) (h : IsEntry e n name i j) where
    pub Names-remove : Names n (update e j blank)
    Names-remove = record {
      named = λ k l lt q. ground (arith, v.named k l);
      blank = λ k lt q. ground (arith, v.blank k);
      same_name = λ k l x y ltk ltl hk hl q. ground (arith, v.same_name k l x y);
    }

    -- The cleared name is gone, and every other lookup is as before.
    pub find_name-remove :
        (other : Name)
        → find_name (update e j blank) n other
          ≡ (if str_eq name other then none else find_name e n other)
    find_name-remove other = elim (Bool-cases (str_eq name other)) [
      | inl same ↦ rw same (
          find_name-none Names-remove other
            (λ k l q. ground (arith, str_eq→eq name other, v.same_name k j l i)))
      | inr differ ↦ rw differ (elim (find_name-cases v other) [
        | inl (q, none_such) ↦
            rw q (find_name-none Names-remove other (λ k l q'. ground (arith, none_such k l)))
        | inr (x, q, (k, h')) ↦ rw q (
            find_name-IsEntry Names-remove other x k
              (h'.0, ground (arith, eq→str_eq name other), ground (arith, eq→str_eq name other)))
      ])
    ]

module _ {n m : ℕ} {st : ℕ → AllocationState} {e : ℕ → DirEntry} (v : Directory n m st e) where
  pub Directory-add :
      (j i : ℕ) (name : Name)
      → j < n
      → (e j).d_inumber ≡ none
      → i < m
      → i ≢ 0
      → st i ≡ free
      → 0 < length name
      → length name < max_file_name
      → find_name e n name ≡ none
      → Directory n m (update st i taken) (update e j (used name i))
  Directory-add j i name j_in j_free i_in i_root i_free long short new = record {
    names = Names-add v.names j i name j_in j_free long short new;
    listed = λ k l lt h. ground (arith, v.listed k l);
    same_inode =
        λ k l x ltk ltl hk hl. ground (arith, v.same_inode k l x, v.listed k x, v.listed l x);
    no_orphan = λ x lt nz t. elim (Bool-cases (i == x)) [
      | inl here ↦ (j, j_in, ground arith)
      | inr there ↦ let (k, ltk, q) = v.no_orphan x lt nz (ground arith) in (k, ltk, ground arith)
    ];
  }

  pub Directory-remove :
      (j i : ℕ) (name : Name)
      → IsEntry e n name i j
      → Directory n m (update st i free) (update e j blank)
  Directory-remove j i name h = record {
    names = Names-remove v.names j i name h;
    listed = λ k l lt q. ground (arith, v.listed k l, v.same_inode k j i);
    same_inode = λ k l x ltk ltl hk hl. ground (arith, v.same_inode k l x);
    no_orphan =
        λ x lt nz t. let (k, ltk, q) = v.no_orphan x lt nz (ground arith) in (k, ltk, ground arith);
  }
