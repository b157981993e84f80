-- ===== src/Base/Arrays.antt =====
-- C arrays as functions of the index, and the loop that looks for the first index with a property.
use Prim.Native.Nat.{ℕ, zero, suc, ◌+◌, ◌≤◌, ◌<◌}
use mathlib.Core.Path.{◌≡◌, refl, sym, ◌∙◌, ap}
use mathlib.Core.Logic.{◌⊎◌, inl, inr, ◌≢◌}
use mathlib.Core.Bool.{Bool, true, false, false≢true}
use native.Mathlib.Decide.{dec_lt}
use mathlib.Core.Option.{Option, none, some}
use native.Mathlib.Omega.{arith}
use so_project.Base.Tests.{◌==◌, if◌then◌else◌, Bool-cases, ==→eq, not_==→ne}

-- `a[i] = v`. Bounds are tested where the source tests them.
abbrev pub update {ℓ} : {A : Type ℓ} → (ℕ → A) → ℕ → A → ℕ → A
update f i v j = if i == j then v else f j

-- What holds of the new value and of the old ones holds of every value.
pub update_ind {ℓ κ} :
    {A : Type ℓ} (P : A → Type κ) (f : ℕ → A) (i : ℕ) (v : A) (j : ℕ)
    → (i ≡ j → P v)
    → (i ≢ j → P (f j))
    → P (update f i v j)
update_ind P f i v j here there = elim (Bool-cases (i == j)) [
  | inl e ↦ rw e (here (==→eq i j e))
  | inr e ↦ rw e (there (not_==→ne i j e))
]

pub update_self {ℓ} : {A : Type ℓ} (f : ℕ → A) (i : ℕ) (v : A) → update f i v i ≡ v
update_self f i v = ground arith

pub update-ne {ℓ} : {A : Type ℓ} (f : ℕ → A) (i : ℕ) (v : A) (j : ℕ) → i ≢ j → update f i v j ≡ f j
update-ne f i v j h = ground arith

-- `for (i = start; i < start + rounds; i++) if (test(i)) return i;`
unfoldable pub first_index : (ℕ → Bool) → ℕ → ℕ → Option ℕ
first_index test zero start = none
first_index test (suc rounds) start =
    let rest = first_index test rounds (start + 1) in if test start then some start else rest

-- What the loop returns: the least index in range that passes, or nothing if none does.
data Least (test : ℕ → Bool) (lo hi : ℕ) : Option ℕ → Type 0 where
  found :
      (i : ℕ)
      → lo ≤ i
      → i < hi
      → test i ≡ true
      → ((j : ℕ) → lo ≤ j → j < i → test j ≡ false)
      → Least test lo hi (some i)
  missing : ((j : ℕ) → lo ≤ j → j < hi → test j ≡ false) → Least test lo hi none

Least-step :
    (test : ℕ → Bool) (lo hi : ℕ) {o : Option ℕ}
    → test lo ≡ false
    → Least test (lo + 1) hi o
    → Least test lo hi o
Least-step test lo hi e (found i p q t m) =
    found i (omega arith) q t
      (λ j a b. elim (Bool-cases (lo == j)) [ inl s ↦ ground arith | inr s ↦ m j (ground arith) b ])
Least-step test lo hi e (missing m) =
    missing
      (λ j a b. elim (Bool-cases (lo == j)) [ inl s ↦ ground arith | inr s ↦ m j (ground arith) b ])

first_index-Least :
    (test : ℕ → Bool) (n lo hi : ℕ) → lo + n ≡ hi → Least test lo hi (first_index test n lo)
unfolding first_index
first_index-Least test zero lo hi e = missing (λ j a b. absurd (omega arith))
first_index-Least test (suc n) lo hi e = elim (Bool-cases (test lo)) [
  | inl t ↦ rw t (found lo (omega arith) (omega arith) t (λ j a b. absurd (omega arith)))
  | inr t ↦ rw t (Least-step test lo hi t (first_index-Least test n (lo + 1) hi (omega arith)))
]

-- The loop from 0: it fails if no index passes, and else returns the least that does.
abbrev pub Found : (ℕ → Bool) → ℕ → Option ℕ → Type 0
Found test n o =
    ((o ≡ none) × ((j : ℕ) → j < n → test j ≡ false))
    ⊎ ((i : ℕ) × (o ≡ some i) × (i < n) × (test i ≡ true) × ((j : ℕ) → j < i → test j ≡ false))

Least-Found : {test : ℕ → Bool} {n : ℕ} {o : Option ℕ} → Least test 0 n o → Found test n o
Least-Found (found i p q t m) = inr (i, refl, q, t, λ j h. m j (omega arith) h)
Least-Found (missing m) = inl (refl, λ j h. m j (omega arith) h)

pub first_index-Found : (test : ℕ → Bool) (n : ℕ) → Found test n (first_index test n 0)
first_index-Found test n = Least-Found (first_index-Least test n 0 n (omega arith))

-- What the loop returns, from the two properties that single it out.
pub first_index-eq_some :
    (test : ℕ → Bool) (n i : ℕ)
    → i < n
    → test i ≡ true
    → ((j : ℕ) → j < i → test j ≡ false)
    → first_index test n 0 ≡ some i
first_index-eq_some test n i lt t m = elim (first_index-Found test n) [
  | inl (e, all) ↦ absurd (false≢true (sym (all i lt) ∙ t))
  | inr (k, e, p, q, m') ↦ elim (dec_lt i k) [
    | yes below ↦ absurd (false≢true (sym (m' i below) ∙ t))
    | no h ↦ elim (dec_lt k i) [
      | yes below ↦ absurd (false≢true (sym (m k below) ∙ q))
      | no h' ↦ rw e (ap some (omega arith))
    ]
  ]
]
