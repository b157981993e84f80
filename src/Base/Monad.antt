-- ===== src/Base/Monad.antt =====
-- C functions as state passing: a result and the state after it, or `none` where the program aborts,
-- blocks on a lock that it holds, or leaves what C defines.
use Prim.Native.Nat.{ℕ}
use mathlib.Core.Path.{◌≡◌, refl}
use mathlib.Core.Bool.{Bool, true, false}
use mathlib.Core.Option.{Option, none, some}

abbrev pub StateM : Type 0 → Type 0 → Type 0
StateM S A = S → Option (A × S)

unfoldable pub pure : {S A : Type 0} → A → StateM S A
pure a s = some (a, s)

infixl 5 ◌>>=◌ ◌>>◌
unfoldable pub ◌>>=◌ : {S A B : Type 0} → StateM S A → (A → StateM S B) → StateM S B
◌>>=◌ m f s = elim (m s) [ none ↦ none | some (a, s') ↦ f a s' ]

unfoldable pub ◌>>◌ : {S A B : Type 0} → StateM S A → StateM S B → StateM S B
unfolding ◌>>=◌
m >> k = m >>= λ _. k

-- What `f` reads of the state.
unfoldable pub reads : {S A : Type 0} → (S → A) → StateM S A
reads f s = some (f s, s)

-- An assignment to the static variables.
unfoldable pub modify : {S : Type 0} → (S → S) → StateM S (Unit {0})
modify f s = some (tt, f s)

-- PANIC, or undefined behaviour.
unfoldable pub abort : {S A : Type 0} → StateM S A
abort s = none

-- `if (b) m else k`
unfoldable pub branch : {S A : Type 0} → Bool → StateM S A → StateM S A → StateM S A
branch true m k s = m s
branch false m k s = k s

-- ALWAYS_ASSERT
unfoldable pub always_assert : {S : Type 0} → Bool → StateM S (Unit {0})
unfolding branch pure abort
always_assert b = branch b (pure tt) abort

-- A test of a result against -1.
unfoldable pub on_index : {S A : Type 0} → Option ℕ → StateM S A → (ℕ → StateM S A) → StateM S A
on_index none m f s = m s
on_index (some i) m f s = f i s

-- Postcondition of a run that returns: total correctness, since `none` has no rule.
pub data Ends {S A : Type 0} (P : A → S → Type 0) : Option (A × S) → Type 0 where
  ends : (a : A) (s : S) → P a s → Ends P (some (a, s))

module _ {S A B : Type 0} {Q : A → S → Type 0} {P : B → S → Type 0} where
  bind_cases :
      (o : Option (A × S)) (f : A → StateM S B)
      → Ends Q o
      → ((a : A) (s' : S) → Q a s' → Ends P (f a s'))
      → Ends P (elim o [ none ↦ none | some (a, s') ↦ f a s' ])
  bind_cases o f (ends a s q) k = k a s q

  pub Ends->>= :
      (m : StateM S A) (f : A → StateM S B) (s : S)
      → Ends Q (m s)
      → ((a : A) (s' : S) → Q a s' → Ends P (f a s'))
      → Ends P ((m >>= f) s)
  unfolding ◌>>=◌
  Ends->>= m f s e k = bind_cases (m s) f e k

  pub Ends->> :
      (m : StateM S A) (f : StateM S B) (s : S)
      → Ends Q (m s)
      → ((a : A) (s' : S) → Q a s' → Ends P (f s'))
      → Ends P ((m >> f) s)
  unfolding ◌>>◌
  Ends->> m f s e k = bind_cases (m s) (λ _. f) e k

pub pure-eq : {S A : Type 0} (a : A) (s : S) → pure a s ≡ some (a, s)
unfolding pure
pure-eq a s = refl

reads-eq : {S A : Type 0} (f : S → A) (s : S) → reads f s ≡ some (f s, s)
unfolding reads
reads-eq f s = refl

modify-eq : {S : Type 0} (f : S → S) (s : S) → modify f s ≡ some (tt, f s)
unfolding modify
modify-eq f s = refl

module _ {S A B : Type 0} {P : B → S → Type 0} where
  -- A step whose result is known.
  pub Ends-step :
      (m : StateM S A) (f : A → StateM S B) (s : S) {a : A} {t : S}
      → m s ≡ some (a, t)
      → Ends P (f a t)
      → Ends P ((m >>= f) s)
  unfolding ◌>>=◌
  Ends-step m f s e k = rw (e, ◌>>=◌) k

  pub Ends-then :
      (m : StateM S A) (f : StateM S B) (s : S) {a : A} {t : S}
      → m s ≡ some (a, t)
      → Ends P (f t)
      → Ends P ((m >> f) s)
  unfolding ◌>>◌ ◌>>=◌
  Ends-then m f s e k = rw (e, ◌>>=◌) k

module _ {S B : Type 0} {P : B → S → Type 0} where
  pub Ends-reads :
      {A : Type 0} (f : S → A) (k : A → StateM S B) (s : S)
      → Ends P (k (f s) s)
      → Ends P ((reads f >>= k) s)
  Ends-reads f k s h = Ends-step (reads f) k s (reads-eq f s) h

  pub Ends-modify :
      (f : S → S) (k : StateM S B) (s : S) → Ends P (k (f s)) → Ends P ((modify f >> k) s)
  Ends-modify f k s h = Ends-then (modify f) k s (modify-eq f s) h

pub Ends-done :
    {S A : Type 0} {P : A → S → Type 0} {o : Option (A × S)} {a : A} {t : S}
    → o ≡ some (a, t)
    → P a t
    → Ends P o
Ends-done {a} {t} e p = rw e (ends a t p)

pub Ends-mono :
    {S A : Type 0} {P Q : A → S → Type 0} {o : Option (A × S)}
    → Ends P o
    → ((a : A) (s : S) → P a s → Q a s)
    → Ends Q o
Ends-mono (ends a s p) h = ends a s (h a s p)

-- A run that returns, as an equation.
pub Ends-eq :
    {S A : Type 0} {P : A → S → Type 0} {o : Option (A × S)}
    → Ends P o
    → (a : A) × (s : S) × (o ≡ some (a, s)) × P a s
Ends-eq (ends a s p) = (a, s, refl, p)

-- A step whose result is known, in an equation.
pub >>=-eq :
    {S A B : Type 0} (m : StateM S A) (f : A → StateM S B) (s : S) {a : A} {t : S}
    → m s ≡ some (a, t)
    → (m >>= f) s ≡ f a t
unfolding ◌>>=◌
>>=-eq m f s e = rw (e, ◌>>=◌)

pub >>-eq :
    {S A B : Type 0} (m : StateM S A) (f : StateM S B) (s : S) {a : A} {t : S}
    → m s ≡ some (a, t)
    → (m >> f) s ≡ f t
unfolding ◌>>◌ ◌>>=◌
>>-eq m f s e = rw (e, ◌>>=◌)
