-- ===== src/Protocol/Memory.antt =====
-- Structs as bytes, and `strcpy` into them.
use so_project.Base.{
  ℕ, zero, suc, ◌∙◌, false, ◌+◌, ◌-◌, ◌≤◌, ◌<◌, ◌≡◌, refl, ◌≢◌, ◌&&◌, Option, none, some, [], ◌∷◌,
  Name, length, take, c_string, ltb, leb, ◌==◌, if◌then◌else◌, arith,
}

-- The character at an index of a C string, its terminator included.
unfoldable pub char_at : Name → ℕ → ℕ
char_at [] k = 0
char_at (c ∷ r) k = let rest = char_at r (k - 1) in if k == 0 then c else rest

-- Bytes `offset` on of a struct after `strcpy(struct + offset, s)`.
abbrev pub copied : ℕ → Name → (ℕ → ℕ) → ℕ → ℕ
copied offset s m k =
    if leb offset k && leb k (offset + length s) then char_at s (k - offset) else m k

-- `strcpy` to `offset` in a struct, into an array that ends before byte `size` of the struct. `none`
-- where it leaves the array.
abbrev pub strcpy : ℕ → ℕ → Name → (ℕ → ℕ) → Option (ℕ → ℕ)
strcpy size offset s m = if ltb (offset + length s) size then some (copied offset s m) else none

-- `memset(req, 0, sizeof(*req))`
abbrev pub zeroed : ℕ → ℕ
zeroed k = 0

-- An assignment to one byte.
abbrev pub set_byte : ℕ → ℕ → (ℕ → ℕ) → ℕ → ℕ
set_byte i c m k = if k == i then c else m k

-- The string in an array of `n` characters at `offset`.
abbrev pub field : ℕ → ℕ → (ℕ → ℕ) → Name
field n offset m = c_string n (λ k. m (offset + k))

-- A C string has no zero inside.
abbrev pub IsText : Name → Type 0
IsText s = (k : ℕ) → k < length s → char_at s k ≢ 0

char_at-suc : (c : ℕ) (r : Name) (k : ℕ) → char_at (c ∷ r) (k + 1) ≡ char_at r k
unfolding char_at
char_at-suc c r k =
    let same : k + 1 - 1 ≡ k = omega arith in
    let pos : (k + 1 == 0) ≡ false = ground arith in rw (pos, same) refl

-- An array that holds the characters of a string reads as that string, cut to the array.
pub c_string-char_at :
    (n : ℕ) (s : Name) (m : ℕ → ℕ)
    → IsText s
    → ((k : ℕ) → k < n → k ≤ length s → m k ≡ char_at s k)
    → c_string n m ≡ take n s
unfolding c_string char_at
c_string-char_at zero s m t h = refl
c_string-char_at (suc n) [] m t h = rw (h 0 (omega arith) (omega arith)) refl
c_string-char_at (suc n) (c ∷ r) m t h =
    let first : m 0 ≡ c = h 0 (omega arith) (omega arith) in
    let more : (m 0 == 0) ≡ false = ground (arith, t 0 (omega arith)) in
    let rest =
      c_string-char_at n r (λ k. m (k + 1))
        (λ k lt. λ z. t (k + 1) (omega arith) (char_at-suc c r k ∙ z))
        (λ k lt le. h (k + 1) (omega arith) (omega arith) ∙ char_at-suc c r k) in
    rw (more, first, rest) refl
