-- ===== src/PcQueue/Fifo.antt =====
-- The queue of producer-consumer/pcqueue.c as a list of its elements.
use native.Mathlib.Nat.{mod-add-mod, mod-eq_of_lt, mod-eq-sub-mod, add-zero, mod-lt}
use native.Mathlib.Decide.{dec_lt}
use mathlib.Core.Path.{ap₂}
use so_project.Base.{
  ℕ, zero, suc, ◌+◌, ◌-◌, ◌%◌, ◌≤◌, ◌<◌, ◌≡◌, refl, sym, ap, ◌⊎◌, ◌∙◌, ◌≢◌, inl, inr, none, some,
  List, [], ◌∷◌, ◌++◌, length, update, update_self, update-ne, ◌==◌, ==→eq, Bool-cases, arith,
}
use so_project.PcQueue.{PcQueue, pcq_create, pcq_enqueue, push, pop, pcq_dequeue}

-- The `n` elements from position `t` on, round the buffer.
abbrev ring : {A : Type 0} → ℕ → (ℕ → A) → ℕ → ℕ → List A
ring cap buffer t zero = []
ring cap buffer t (suc n) = buffer t ∷ ring cap buffer ((t + 1) % cap) n

-- The elements that are in the queue, the oldest first.
abbrev pub contents : {A : Type 0} → PcQueue A → List A
contents q = ring q.pcq_capacity q.pcq_buffer q.pcq_tail q.pcq_current_size

-- The head is as far from the tail as there are elements.
pub record IsValid {A : Type 0} (q : PcQueue A) : Type 0 where
  pub tail_in : q.pcq_tail < q.pcq_capacity
  pub size_le : q.pcq_current_size ≤ q.pcq_capacity
  pub head_at : q.pcq_head ≡ (q.pcq_tail + q.pcq_current_size) % q.pcq_capacity

length-ring : {A : Type 0} (cap : ℕ) (buffer : ℕ → A) (t n : ℕ) → length (ring cap buffer t n) ≡ n
length-ring cap buffer t zero = refl
length-ring cap buffer t (suc n) = ap suc (length-ring cap buffer ((t + 1) % cap) n)

next_lt : (cap t : ℕ) → t < cap → (t + 1) % cap < cap
next_lt (suc c) t lt = mod-lt (t + 1) (omega arith)
next_lt zero t lt = absurd (omega arith)

-- Less than a whole turn does not come back.
turn-ne : (cap t n : ℕ) → t < cap → suc n < cap → (t + suc n) % cap ≢ t
turn-ne cap t n lt ln = elim (dec_lt (t + suc n) cap) [
  | yes p ↦ omega (arith, mod-eq_of_lt p)
  | no p ↦ omega (
    arith,
    mod-eq-sub-mod {n = t + suc n} {m = cap} (omega arith),
    mod-eq_of_lt {n = t + suc n - cap} {m = cap} (omega arith),
  )
]

turn-suc : (cap t n : ℕ) → (t + suc n) % cap ≡ ((t + 1) % cap + n) % cap
turn-suc cap t n = rw mod-add-mod (ap (λ k. k % cap) (omega arith))

-- An element stored just past the last is the last.
ring-update :
    {A : Type 0} (cap : ℕ) (buffer : ℕ → A) (x : A) (t n h : ℕ)
    → t < cap
    → n < cap
    → h ≡ (t + n) % cap
    → ring cap (update buffer h x) t (suc n) ≡ ring cap buffer t n ++ (x ∷ [])
ring-update cap buffer x t zero h lt ln e =
    let first : h ≡ t = e ∙ (rw (add-zero, mod-eq_of_lt lt) refl) in
    rw first (ap (λ y. y ∷ []) (update_self buffer t x))
ring-update cap buffer x t (suc n) h lt ln e =
    ap₂ ◌∷◌ (update-ne buffer h x t (rw e (turn-ne cap t n lt ln))) (
      ring-update cap buffer x ((t + 1) % cap) n h (next_lt cap t lt) (omega arith)
        (e ∙ turn-suc cap t n))

module _ {A : Type 0} (q : PcQueue A) (v : IsValid q) where
  push_head :
      (q.pcq_head + 1) % q.pcq_capacity ≡ (q.pcq_tail + (q.pcq_current_size + 1)) % q.pcq_capacity
  push_head = rw (v.head_at, mod-add-mod) (ap (λ k. k % q.pcq_capacity) (omega arith))

  -- On a valid queue that is full, `pcq_enqueue` makes the caller wait. Otherwise it returns, in
  -- a valid queue of the same capacity that holds the element after those that it held.
  pub pcq_enqueue_lem :
      (x : A)
      → ((length (contents q) ≡ q.pcq_capacity) × (pcq_enqueue q x ≡ none))
        ⊎ ((length (contents q) < q.pcq_capacity)
            × ((q' : PcQueue A) × (pcq_enqueue q x ≡ some q')
                × IsValid q'
                × (q'.pcq_capacity ≡ q.pcq_capacity)
                × (contents q' ≡ contents q ++ (x ∷ []))))
  unfolding pcq_enqueue
  pcq_enqueue_lem x =
      let n = length-ring q.pcq_capacity q.pcq_buffer q.pcq_tail q.pcq_current_size in
      elim (Bool-cases (q.pcq_current_size == q.pcq_capacity)) [
        | inl full ↦ inl (n ∙ ==→eq _ _ full, rw full refl)
        | inr room ↦
            let lt : q.pcq_current_size < q.pcq_capacity = ground (arith, v.size_le) in
            inr (
              omega (arith, n),
              (
                push q x,
                rw room refl,
                record { tail_in = v.tail_in; size_le = omega arith; head_at = push_head },
                refl,
                ap (ring q.pcq_capacity (update q.pcq_buffer q.pcq_head x) q.pcq_tail)
                      {y = suc q.pcq_current_size} (omega arith)
                    ∙ ring-update q.pcq_capacity q.pcq_buffer x q.pcq_tail q.pcq_current_size
                        q.pcq_head v.tail_in lt v.head_at,
              ),
            )
      ]

  -- On a valid queue that is empty, `pcq_dequeue` makes the caller wait. Otherwise it returns
  -- the oldest element, in a valid queue of the same capacity that holds the others.
  pub pcq_dequeue_lem :
      ((contents q ≡ []) × (pcq_dequeue q ≡ none))
      ⊎ ((x : A) × (q' : PcQueue A) × (pcq_dequeue q ≡ some (x, q'))
          × IsValid q'
          × (q'.pcq_capacity ≡ q.pcq_capacity)
          × (contents q ≡ x ∷ contents q'))
  unfolding pcq_dequeue
  pcq_dequeue_lem = elim (Bool-cases (q.pcq_current_size == 0)) [
    | inl none_left ↦
        inl (
          ap (ring q.pcq_capacity q.pcq_buffer q.pcq_tail) (==→eq _ _ none_left),
          rw none_left refl,
        )
    | inr some_left ↦
        let one_more : q.pcq_current_size ≡ suc (q.pcq_current_size - 1) = ground arith in
        inr (
          q.pcq_buffer q.pcq_tail,
          (pop q).1,
          rw some_left refl,
          record {
            tail_in = next_lt q.pcq_capacity q.pcq_tail v.tail_in;
            size_le = ground (arith, v.size_le);
            head_at =
                v.head_at
                ∙ ap (λ k. (q.pcq_tail + k) % q.pcq_capacity) one_more
                ∙ turn-suc q.pcq_capacity q.pcq_tail (q.pcq_current_size - 1);
          },
          refl,
          ap (ring q.pcq_capacity q.pcq_buffer q.pcq_tail) one_more,
        )
  ]

-- A queue that is created with room for an element, when `malloc` succeeds, is valid and empty.
pcq_create_lem :
    {A : Type 0} (buffer : ℕ → A) (capacity : ℕ)
    → 0 < capacity
    → (q : PcQueue A) × (pcq_create (some buffer) capacity ≡ some q)
      × IsValid q
      × (contents q ≡ [])
      × (q.pcq_capacity ≡ capacity)
unfolding pcq_create
pcq_create_lem buffer capacity pos = (
  _,
  refl,
  record { tail_in = pos; size_le = omega arith; head_at = sym (mod-eq_of_lt pos) },
  refl,
  refl,
)
