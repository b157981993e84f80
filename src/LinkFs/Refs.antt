-- ===== src/LinkFs/Refs.antt =====
-- How many entries of the root directory of fs/state.c name an inode.
use so_project.Base.{
  ℕ, zero, suc, ◌+◌, ◌≤◌, ◌<◌, ◌≡◌, refl, ◌≢◌, inl, inr, Bool, false, Option, none, some, update,
  Name, ◌==◌, Bool-cases, if◌then◌else◌, arith,
}
use so_project.Tfs.Types.{DirEntry}
use so_project.Tfs.DirUpdate.{used, blank}

abbrev is_inumber : ℕ → Option ℕ → Bool
is_inumber i none = false
is_inumber i (some j) = j == i

abbrev one_if : ℕ → DirEntry → ℕ
one_if i e = if is_inumber i e.d_inumber then 1 else 0

unfoldable pub refs : ℕ → (ℕ → DirEntry) → ℕ → ℕ
refs zero e i = 0
refs (suc n) e i = refs n e i + one_if i (e n)

refs-update_of_le :
    (n : ℕ) (e : ℕ → DirEntry) (j : ℕ) (x : DirEntry) (i : ℕ)
    → n ≤ j
    → refs n (update e j x) i ≡ refs n e i
unfolding refs
refs-update_of_le zero e j x i h = refl
refs-update_of_le (suc n) e j x i h = ground (arith, refs-update_of_le n e j x i)

-- One entry is changed: what it counted for is taken off, and what it counts for is added.
refs-update :
    (n : ℕ) (e : ℕ → DirEntry) (j : ℕ) (x : DirEntry) (i : ℕ)
    → j < n
    → refs n (update e j x) i + one_if i (e j) ≡ refs n e i + one_if i x
unfolding refs
refs-update zero e j x i h = absurd (omega arith)
refs-update (suc n) e j x i h = elim (Bool-cases (j == n)) [
  | inl last ↦ ground (arith, refs-update_of_le n e j x i)
  | inr below ↦ ground (arith, refs-update n e j x i)
]

pub refs-used :
    (n : ℕ) (e : ℕ → DirEntry) (j i : ℕ) (name : Name) (x : ℕ)
    → j < n
    → (e j).d_inumber ≡ none
    → refs n (update e j (used name i)) x ≡ refs n e x + (if i == x then 1 else 0)
refs-used n e j i name x lt h = ground (arith, refs-update n e j (used name i) x lt)

pub refs-blank :
    (n : ℕ) (e : ℕ → DirEntry) (k i x : ℕ)
    → k < n
    → (e k).d_inumber ≡ some i
    → refs n (update e k blank) x + (if i == x then 1 else 0) ≡ refs n e x
refs-blank n e k i x lt h = ground (arith, refs-update n e k blank x lt)

refs_pos : (n : ℕ) (e : ℕ → DirEntry) (k i : ℕ) → k < n → (e k).d_inumber ≡ some i → 0 < refs n e i
unfolding refs
refs_pos zero e k i h q = absurd (omega arith)
refs_pos (suc n) e k i h q = elim (Bool-cases (k == n)) [
  | inl last ↦ ground arith
  | inr below ↦ ground (arith, refs_pos n e k i)
]

pub refs_none :
    (n : ℕ) (e : ℕ → DirEntry) (i : ℕ)
    → ((k : ℕ) → k < n → (e k).d_inumber ≢ some i)
    → refs n e i ≡ 0
unfolding refs
refs_none zero e i h = refl
refs_none (suc n) e i h =
    let rest = refs_none n e i (λ k lt. h k (omega arith)) in
    let last = h n (omega arith) in ground arith

pub refs_le : (n : ℕ) (e : ℕ → DirEntry) (i : ℕ) → refs n e i ≤ n
unfolding refs
refs_le zero e i = omega arith
refs_le (suc n) e i = ground (arith, refs_le n e i)

-- An inode that is named once is named by no other entry.
pub refs_once :
    (n : ℕ) (e : ℕ → DirEntry) (i k l : ℕ)
    → refs n e i ≡ 1
    → k < n
    → l < n
    → (e k).d_inumber ≡ some i
    → (e l).d_inumber ≡ some i
    → k ≡ l
refs_once n e i k l once ltk ltl qk ql = elim (Bool-cases (k == l)) [
  | inl same ↦ ground arith
  | inr differ ↦
      let blank : DirEntry = record { d_name = (e l).d_name; d_inumber = none } in
      let fewer = refs-update n e l blank i ltl in
      let still = refs_pos n (update e l blank) k i ltk (ground arith) in absurd (ground arith)
]
