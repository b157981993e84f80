-- ===== src/PcQueue/Exclusion.antt =====
-- Mutual exclusion of the threads of producer-consumer/pcqueue.c.
use so_project.Base.{
  ℕ, ◌≡◌, refl, sym, ap, ◌∙◌, subst, ◌≢◌, inl, inr, Bool, true, false, ◌||◌, Option, none, some,
  List, [], ◌∷◌, ◌++◌, update, Bool-cases, Option-cases, ◌==◌, arith,
}
use mathlib.Core.Bool.{false≢true}
use so_project.PcQueue.{PcQueue, push, pop}
use so_project.PcQueue.Threads.{
  Pc, System, goto, acquire, is_waiting_popper, waiting_pusher, wake_popper, wake_pusher, act_at,
  Step, Begins, start, Reach, push_begin, push_entered, push_testing, push_full, push_sleeping,
  push_waiting, push_woken, push_ready, push_inserting, push_inserted, push_counted, push_leaving,
  push_signalling, pushed, pop_begin, pop_entered, pop_testing, pop_empty, pop_sleeping,
  pop_waiting, pop_woken, pop_ready, pop_removing, pop_removed, pop_counted, pop_leaving,
  pop_signalling, popped, runs, spurious_pusher, spurious_popper, enqueues, dequeues, stay, after,
}

pub some_inj : {B : Type 0} {x y : B} → some x ≡ some y → x ≡ y
some_inj q = cc

pub some_ne : {B : Type 0} {x : B} → ¬ (none ≡ some x)
some_ne q = cc

module _ {A : Type 0} where
  -- Whether a thread that stands at `p` holds the mutex `m`.
  unfoldable pub holds : ℕ → Pc A → Bool
  holds m (push_begin x) = false
  holds m (push_entered x) = m == 3
  holds m (push_testing x) = m == 3 || m == 0
  holds m (push_full x) = m == 3 || m == 0
  holds m (push_sleeping x) = m == 3
  holds m (push_waiting x) = false
  holds m (push_woken x) = false
  holds m (push_ready x) = m == 3 || m == 0
  holds m (push_inserting x) = m == 3 || (m == 0 || m == 1)
  holds m push_inserted = m == 3 || (m == 0 || m == 1)
  holds m push_counted = m == 3 || m == 0
  holds m push_leaving = m == 3
  holds m push_signalling = false
  holds m pushed = false
  holds m pop_begin = false
  holds m pop_entered = m == 4
  holds m pop_testing = m == 4 || m == 0
  holds m pop_empty = m == 4 || m == 0
  holds m pop_sleeping = m == 4
  holds m pop_waiting = false
  holds m pop_woken = false
  holds m pop_ready = m == 4 || m == 0
  holds m pop_removing = m == 4 || (m == 0 || m == 2)
  holds m (pop_removed x) = m == 4 || (m == 0 || m == 2)
  holds m (pop_counted x) = m == 4 || m == 0
  holds m (pop_leaving x) = m == 4
  holds m (pop_signalling x) = false
  holds m (popped x) = false

  -- A thread that holds a mutex is its owner.
  abbrev pub Owned : System A → Type 0
  Owned s = (m j : ℕ) → holds m (s.pc j) ≡ true → s.locks m ≡ some j

  module _ (s : System A) (i : ℕ) (p0 p : Pc A) (o : Owned s) (at_p0 : s.pc i ≡ p0) where
    Owned-goto :
        (f : ℕ → Pc A)
        → ((k j : ℕ) → holds k (f j) ≡ true → holds k (s.pc j) ≡ true)
        → ((k : ℕ) → holds k p ≡ true → holds k p0 ≡ true)
        → Owned (goto i p (record s { pc = f }))
    Owned-goto f same new m j h = elim (Bool-cases (i == j)) [
      | inl me ↦ o m j (ground (arith, new m))
      | inr other ↦ o m j (same m j (ground arith))
    ]

    Owned-acquire :
        (m : ℕ)
        → s.locks m ≡ none
        → ((k : ℕ) → holds k p ≡ true → k ≢ m → holds k p0 ≡ true)
        → Owned (goto i p (record s { locks = update s.locks m (some i) }))
    Owned-acquire m free new k j h = elim (Bool-cases (i == j)) [
      | inl me ↦ elim (Bool-cases (m == k)) [
        | inl this ↦ ground arith
        | inr that ↦ rw that (o k j (ground (arith, new k)))
      ]
      | inr other ↦ let owner : s.locks k ≡ some j = o k j (ground arith) in ground arith
    ]

    Owned-release :
        (m : ℕ)
        → holds m p0 ≡ true
        → ((k : ℕ) → holds k p ≡ true → (k ≢ m) × (holds k p0 ≡ true))
        → Owned (goto i p (record s { locks = update s.locks m none }))
    Owned-release m mine new k j h =
        let owner : s.locks m ≡ some i = o m i (ap (holds m) at_p0 ∙ mine) in
        elim (Bool-cases (i == j)) [
          | inl me ↦
              let (ne, held) = new k (ground arith) in
              let owned : s.locks k ≡ some j = o k j (ground arith) in ground arith
          | inr other ↦ let owned : s.locks k ≡ some j = o k j (ground arith) in ground arith
        ]

  pub acquired :
      (s t : System A) (m i : ℕ) (p : Pc A)
      → acquire m i p s ≡ some t
      → (s.locks m ≡ none) × (goto i p (record s { locks = update s.locks m (some i) }) ≡ t)
  acquired s t m i p q = elim (Option-cases (s.locks m)) [
    | inl free ↦ (free, some_inj (ground arith))
    | inr (l, taken) ↦ absurd (ground arith)
  ]

  took :
      (s t : System A) (i : ℕ) (p0 p : Pc A)
      → Owned s
      → s.pc i ≡ p0
      → (m : ℕ) → acquire m i p s ≡ some t
      → ((k : ℕ) → holds k p ≡ true → k ≢ m → holds k p0 ≡ true)
      → Owned t
  took s t i p0 p o at_p0 m q new =
      let (free, same) = acquired s t m i p q in
      subst Owned same (Owned-acquire s i p0 p o at_p0 m free new)

  went : (s t : System A) → Owned s → some s ≡ some t → Owned t
  went s t o q = subst Owned (some_inj q) o

  -- A thread that is woken holds nothing.
  wake_popper-holds : (k : ℕ) (p : Pc A) → holds k (wake_popper p) ≡ true → holds k p ≡ true
  unfolding holds
  wake_popper-holds k p h = elim (Bool-cases (is_waiting_popper p)) [
    | inl wakes ↦ absurd (false≢true (rw wakes at h))
    | inr stays ↦ rw stays at h
  ]

  wake_pusher-holds : (k : ℕ) (p : Pc A) → holds k (wake_pusher p) ≡ true → holds k p ≡ true
  unfolding holds
  wake_pusher-holds k p h =
      let woken : Option A → Type 0 =
        λ o. holds k (elim o [ none ↦ p | some x ↦ push_woken x ]) ≡ true in
      elim (Option-cases (waiting_pusher p)) [
        | inl stays ↦ subst woken stays h
        | inr (x, wakes) ↦ absurd (false≢true (subst woken wakes h))
      ]

  Owned-act :
      (s t : System A) (i : ℕ) (p0 : Pc A)
      → Owned s
      → s.pc i ≡ p0
      → act_at i p0 s ≡ some t
      → Owned t
  unfolding act_at holds
  Owned-act s t i (push_begin x) o at_p0 q =
      took s t i _ (push_entered x) o at_p0 3 q (λ k h ne. ground arith)
  Owned-act s t i (push_entered x) o at_p0 q =
      took s t i _ (push_testing x) o at_p0 0 q (λ k h ne. ground arith)
  Owned-act s t i (push_testing x) o at_p0 q =
      elim (Bool-cases (s.queue.pcq_current_size == s.queue.pcq_capacity)) [
        | inl full ↦
            went _ t (Owned-goto s i _ (push_full x) o at_p0 s.pc (λ k j h. h) (λ k h. h))
              (rw full at q)
        | inr room ↦
            went _ t (Owned-goto s i _ (push_ready x) o at_p0 s.pc (λ k j h. h) (λ k h. h))
              (rw room at q)
      ]
  Owned-act s t i (push_full x) o at_p0 q =
      went _ t (Owned-release s i _ (push_sleeping x) o at_p0 0 refl (λ k h. ground arith)) q
  Owned-act s t i (push_sleeping x) o at_p0 q =
      went _ t (Owned-release s i _ (push_waiting x) o at_p0 3 refl (λ k h. ground arith)) q
  Owned-act s t i (push_waiting x) o at_p0 q = absurd (some_ne q)
  Owned-act s t i (push_woken x) o at_p0 q =
      took s t i _ (push_entered x) o at_p0 3 q (λ k h ne. ground arith)
  Owned-act s t i (push_ready x) o at_p0 q =
      took s t i _ (push_inserting x) o at_p0 1 q (λ k h ne. ground arith)
  Owned-act s t i (push_inserting x) o at_p0 q =
      went _ t
        (Owned-goto (record s { queue = push s.queue x; inserted = s.inserted ++ (x ∷ []) }) i _
          push_inserted o at_p0 s.pc (λ k j h. h) (λ k h. h))
        q
  Owned-act s t i push_inserted o at_p0 q =
      went _ t (Owned-release s i _ push_counted o at_p0 1 refl (λ k h. ground arith)) q
  Owned-act s t i push_counted o at_p0 q =
      went _ t (Owned-release s i _ push_leaving o at_p0 0 refl (λ k h. ground arith)) q
  Owned-act s t i push_leaving o at_p0 q =
      went _ t (Owned-release s i _ push_signalling o at_p0 3 refl (λ k h. ground arith)) q
  Owned-act s t i push_signalling o at_p0 q =
      went _ t
        (Owned-goto s i _ pushed o at_p0 (λ j. wake_popper (s.pc j))
          (λ k j h. wake_popper-holds k (s.pc j) h) (λ k h. h))
        q
  Owned-act s t i pushed o at_p0 q = absurd (some_ne q)
  Owned-act s t i pop_begin o at_p0 q =
      took s t i _ pop_entered o at_p0 4 q (λ k h ne. ground arith)
  Owned-act s t i pop_entered o at_p0 q =
      took s t i _ pop_testing o at_p0 0 q (λ k h ne. ground arith)
  Owned-act s t i pop_testing o at_p0 q = elim (Bool-cases (s.queue.pcq_current_size == 0)) [
    | inl none_left ↦
        went _ t (Owned-goto s i _ pop_empty o at_p0 s.pc (λ k j h. h) (λ k h. h))
          (rw none_left at q)
    | inr some_left ↦
        went _ t (Owned-goto s i _ pop_ready o at_p0 s.pc (λ k j h. h) (λ k h. h))
          (rw some_left at q)
  ]
  Owned-act s t i pop_empty o at_p0 q =
      went _ t (Owned-release s i _ pop_sleeping o at_p0 0 refl (λ k h. ground arith)) q
  Owned-act s t i pop_sleeping o at_p0 q =
      went _ t (Owned-release s i _ pop_waiting o at_p0 4 refl (λ k h. ground arith)) q
  Owned-act s t i pop_waiting o at_p0 q = absurd (some_ne q)
  Owned-act s t i pop_woken o at_p0 q =
      took s t i _ pop_entered o at_p0 4 q (λ k h ne. ground arith)
  Owned-act s t i pop_ready o at_p0 q =
      took s t i _ pop_removing o at_p0 2 q (λ k h ne. ground arith)
  Owned-act s t i pop_removing o at_p0 q =
      let (x, rest) = pop s.queue in
      went _ t
        (Owned-goto (record s { queue = rest; removed = s.removed ++ (x ∷ []) }) i _ (pop_removed x)
          o at_p0 s.pc (λ k j h. h) (λ k h. h))
        q
  Owned-act s t i (pop_removed x) o at_p0 q =
      went _ t (Owned-release s i _ (pop_counted x) o at_p0 2 refl (λ k h. ground arith)) q
  Owned-act s t i (pop_counted x) o at_p0 q =
      went _ t (Owned-release s i _ (pop_leaving x) o at_p0 0 refl (λ k h. ground arith)) q
  Owned-act s t i (pop_leaving x) o at_p0 q =
      went _ t (Owned-release s i _ (pop_signalling x) o at_p0 4 refl (λ k h. ground arith)) q
  Owned-act s t i (pop_signalling x) o at_p0 q =
      went _ t
        (Owned-goto s i _ (popped x) o at_p0 (λ j. wake_pusher (s.pc j))
          (λ k j h. wake_pusher-holds k (s.pc j) h) (λ k h. h))
        q
  Owned-act s t i (popped x) o at_p0 q = absurd (some_ne q)

  pub Owned-Step : {n : ℕ} {s t : System A} → Owned s → Step n s t → Owned t
  unfolding holds
  Owned-Step {s} {t} o (runs i lt q) = Owned-act s t i (s.pc i) o refl q
  Owned-Step {s} o (spurious_pusher i x lt q) =
      Owned-goto s i (push_waiting x) (push_woken x) o q s.pc (λ k j h. h) (λ k h. h)
  Owned-Step {s} o (spurious_popper i lt q) =
      Owned-goto s i pop_waiting pop_woken o q s.pc (λ k j h. h) (λ k h. h)

  Begins-holds : (p : Pc A) (m : ℕ) → Begins p → holds m p ≡ false
  unfolding holds
  Begins-holds p m (enqueues x) = refl
  Begins-holds p m dequeues = refl

  Reach-Owned : {n : ℕ} {s t : System A} → Owned s → Reach n s t → Owned t
  Reach-Owned o stay = o
  Reach-Owned o (after r st) = Owned-Step (Reach-Owned o r) st

  pub Owned-start :
      (q : PcQueue A) (initial : List A) (calls : ℕ → Pc A)
      → ((i : ℕ) → Begins (calls i))
      → Owned (start q initial calls)
  Owned-start q initial calls b m j h =
      absurd (false≢true (sym (Begins-holds (calls j) m (b j)) ∙ h))

-- However the calls are interleaved, no two threads hold one of the five mutexes at a time.
pub mutual_exclusion :
    {A : Type 0} (n : ℕ) (q : PcQueue A) (initial : List A) (calls : ℕ → Pc A) (s : System A)
    → ((i : ℕ) → Begins (calls i))
    → Reach n (start q initial calls) s
    → (m i j : ℕ) → i ≢ j
    → holds m (s.pc i) ≡ true
    → holds m (s.pc j) ≡ false
mutual_exclusion n q initial calls s b r m i j ne hi =
    let o = Reach-Owned (Owned-start q initial calls b) r in
    elim (Bool-cases (holds m (s.pc j))) [
      | inl hj ↦ absurd (ne (some_inj (sym (o m i hi) ∙ o m j hj)))
      | inr idle ↦ idle
    ]
