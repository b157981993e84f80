-- ===== src/Broker/Writing.antt =====
-- `write_message` of mbroker/box.c on a handle that stands at the end of its file.
use so_project.Base.{
  ℕ, suc, ◌+◌, ◌-◌, ◌≤◌, ◌<◌, ◌≡◌, refl, sym, ap, ◌∙◌, ◌≢◌, inl, inr, subst, true, false,
  Bool-cases, Option, none, some, List, [], ◌∷◌, ◌++◌, Name, length, length-append, ◌==◌, arith,
}
use native.Mathlib.Decide.{dec_lt}
use so_project.Tfs.Types.{DirEntry, free, taken, Fs}
use so_project.Base.Monad.{branch, on_index, pure-eq, Ends, Ends->>=, Ends-done, Ends-mono}
use so_project.Tfs.Operations.{tfs_write}
use so_project.Tfs.Valid.{IsValid}
use so_project.Tfs.Contents.{byte_at, file_size, Written, tfs_write-Written}
use so_project.Protocol.Memory.{char_at}
use so_project.Broker.Boxes.{is_count, write_message}

-- Open handle `k` stands at the end of its file, which can take `n` more bytes.
pub record Ready (b : ℕ) (e : ℕ → DirEntry) (k n : ℕ) (s : Fs) : Type 0 where
  pub valid : IsValid b e s
  pub in_table : k < s.fs_params.max_open_files_count
  pub opened : s.free_open_file_entries k ≡ taken
  pub exists : s.freeinode_ts (s.open_file_table k).of_inumber ≡ taken
  pub at_end : (s.open_file_table k).of_offset ≡ file_size s (s.open_file_table k).of_inumber
  pub room : (s.open_file_table k).of_offset + n ≤ s.fs_params.block_size
  pub block :
      file_size s (s.open_file_table k).of_inumber ≡ 0
      → (d : ℕ) × (d < s.fs_params.max_block_count) × (s.free_blocks d ≡ free)

-- The bytes `l` are put at the end of the file of handle `k`.
pub record Appends (b : ℕ) (e : ℕ → DirEntry) (k : ℕ) (l : List ℕ) (s s' : Fs) : Type 0 where
  pub valid : IsValid b e s'
  pub offset : (s'.open_file_table k).of_offset ≡ (s.open_file_table k).of_offset + length l
  pub same_file : (s'.open_file_table k).of_inumber ≡ (s.open_file_table k).of_inumber
  pub same_params : s'.fs_params ≡ s.fs_params
  pub in_use : (j : ℕ) → s'.free_open_file_entries j ≡ s.free_open_file_entries j
  pub other_handles : (j : ℕ) → j ≢ k → s'.open_file_table j ≡ s.open_file_table j
  pub inodes_in_use : (j : ℕ) → s'.freeinode_ts j ≡ s.freeinode_ts j
  pub size :
      file_size s' (s.open_file_table k).of_inumber
      ≡ file_size s (s.open_file_table k).of_inumber + length l
  pub inside :
      (p : ℕ)
      → p < length l
      → byte_at s' (s.open_file_table k).of_inumber ((s.open_file_table k).of_offset + p)
        ≡ char_at l p
  pub below :
      (p : ℕ)
      → p < file_size s (s.open_file_table k).of_inumber
      → byte_at s' (s.open_file_table k).of_inumber p ≡ byte_at s (s.open_file_table k).of_inumber p
  pub still_empty : file_size s' (s.open_file_table k).of_inumber ≡ 0 → s' ≡ s

pub char_at-append_left : (l m : List ℕ) (p : ℕ) → p < length l → char_at (l ++ m) p ≡ char_at l p
unfolding char_at
char_at-append_left [] m p lt = absurd (omega arith)
char_at-append_left (c ∷ l) m p lt = elim (Bool-cases (p == 0)) [
  | inl z ↦ rw z refl
  | inr z ↦ rw z (char_at-append_left l m (p - 1) (ground arith))
]

pub char_at-append_right : (l m : List ℕ) (p : ℕ) → char_at (l ++ m) (length l + p) ≡ char_at m p
unfolding char_at
char_at-append_right [] m p = ap (char_at m) (omega arith)
char_at-append_right (c ∷ l) m p =
    let z : (suc (length l) + p == 0) ≡ false = ground arith in
    let q : suc (length l) + p - 1 ≡ length l + p = omega arith in
    rw (z, q) (char_at-append_right l m p)

zero_byte : (p : ℕ) → p < 1 → 0 ≡ char_at (0 ∷ []) p
unfolding char_at
zero_byte p lt = let first : (p == 0) ≡ true = ground arith in rw first refl

module _ {b : ℕ} {e : ℕ → DirEntry} {k : ℕ} where
  pub Ready-less : {n m : ℕ} {s : Fs} → m ≤ n → Ready b e k n s → Ready b e k m s
  Ready-less le r = record {
    valid = r.valid;
    in_table = r.in_table;
    opened = r.opened;
    exists = r.exists;
    at_end = r.at_end;
    room = let fits = r.room in omega arith;
    block = r.block;
  }

  -- After an append there is room for what is left.
  pub Ready-Appends :
      {l : List ℕ} {n m : ℕ} {s s' : Fs}
      → m ≡ length l + n
      → Ready b e k m s
      → Appends b e k l s s'
      → Ready b e k n s'
  Ready-Appends {l} {n} {s} {s'} em r a =
      let fits = r.room in
      let size = a.size in
      record {
        valid = a.valid;
        in_table = ground (arith, a.same_params, r.in_table);
        opened = a.in_use k ∙ r.opened;
        exists = ap s'.freeinode_ts a.same_file ∙ a.inodes_in_use _ ∙ r.exists;
        at_end = ground (arith, a.offset, a.same_file, r.at_end);
        room = ground (arith, a.offset, a.same_params);
        block = λ empty.
            let same : s' ≡ s = a.still_empty (ap (file_size s') (sym a.same_file) ∙ empty) in
            subst
              (λ (t : Fs). (d : ℕ) × (d < t.fs_params.max_block_count) × (t.free_blocks d ≡ free))
              (sym same) (r.block (ground arith));
      }

  -- Two appends are one of both.
  Appends-trans :
      {l m : List ℕ} {n : ℕ} {s t u : Fs}
      → Ready b e k n s
      → Appends b e k l s t
      → Appends b e k m t u
      → Appends b e k (l ++ m) s u
  Appends-trans {l} {m} {s} {t} {u} r p q =
      let i = (s.open_file_table k).of_inumber in
      let same : (t.open_file_table k).of_inumber ≡ i = p.same_file in
      let size_u : file_size u i ≡ file_size t i + length m =
        subst (λ j. file_size u j ≡ file_size t j + length m) same q.size in
      let below_u : (x : ℕ) → x < file_size t i → byte_at u i x ≡ byte_at t i x =
        subst (λ j. (x : ℕ) → x < file_size t j → byte_at u j x ≡ byte_at t j x) same q.below in
      let inside_u : (x : ℕ)
          → x < length m
          → byte_at u i ((t.open_file_table k).of_offset + x) ≡ char_at m x =
        subst
          (λ j.
            (x : ℕ)
            → x < length m
            → byte_at u j ((t.open_file_table k).of_offset + x) ≡ char_at m x)
          same q.inside in
      let both = length-append l m in
      let at_t = p.offset in
      let grown = p.size in
      let end_s = r.at_end in
      record {
        valid = q.valid;
        offset = omega (arith, q.offset);
        same_file = q.same_file ∙ same;
        same_params = q.same_params ∙ p.same_params;
        in_use = λ j. q.in_use j ∙ p.in_use j;
        other_handles = λ j ne. q.other_handles j ne ∙ p.other_handles j ne;
        inodes_in_use = λ j. q.inodes_in_use j ∙ p.inodes_in_use j;
        size = omega arith;
        inside = λ x lt. elim (dec_lt x (length l)) [
          | yes first ↦
              below_u _ (omega arith) ∙ p.inside x first ∙ sym (char_at-append_left l m x first)
          | no later ↦
              let y = x - length l in
              let ex : x ≡ length l + y = omega arith in
              let ep : (s.open_file_table k).of_offset + x ≡ (t.open_file_table k).of_offset + y =
                omega arith in
              ap (byte_at u i) ep
              ∙ inside_u y (omega arith)
              ∙ sym (ap (char_at (l ++ m)) ex ∙ char_at-append_right l m y)
        ];
        below = λ x lt. below_u x (omega arith) ∙ p.below x lt;
        still_empty = λ empty.
            let same_t : u ≡ t = q.still_empty (ap (file_size u) same ∙ empty) in
            same_t ∙ p.still_empty (omega arith);
      }

  -- A write of all of `l`.
  Written-Appends :
      (l : List ℕ) (buffer : ℕ → ℕ) (s : Fs) (r : Option ℕ) (s' : Fs)
      → Ready b e k (length l) s
      → ((p : ℕ) → p < length l → buffer p ≡ char_at l p)
      → Written b e k buffer (length l) s r s'
      → (r ≡ some (length l)) × Appends b e k l s s'
  Written-Appends l buffer s none s' r same w =
      let (empty, all) = w.no_room refl in
      let (d, ltd, fr) = r.block empty in absurd (ground (arith, all d ltd))
  Written-Appends l buffer s (some n) s' r same w =
      let fits = r.room in
      let (most, inside_block, full) = w.count n refl in
      let all : n ≡ length l = elim full [ inl q ↦ q | inr q ↦ omega arith ] in
      let end_s = r.at_end in
      let i = (s.open_file_table k).of_inumber in
      let nothing_done : length l ≡ 0 → s' ≡ s = λ z. w.nothing (ap some (all ∙ z)) in
      let grown : file_size s' i ≡ file_size s i + length l = elim (dec_lt 0 (length l)) [
        | yes pos ↦ ground (arith, w.size n refl)
        | no empty ↦ ap (λ (t : Fs). file_size t i) (nothing_done (omega arith)) ∙ omega arith
      ] in
      (
        ap some all,
        record {
          valid = w.valid;
          offset = omega (arith, w.offset n refl);
          same_file = w.same_file;
          same_params = w.same_params;
          in_use = w.in_use;
          other_handles = w.other_handles;
          inodes_in_use = w.inodes_in_use;
          size = grown;
          inside = λ p lt. w.inside n p refl (omega arith) ∙ same p lt;
          below = λ p lt. w.around n p refl (inl (omega arith)) lt;
          still_empty = λ empty. nothing_done (omega arith);
        },
      )

  tfs_write-Appends :
      (l : List ℕ) (buffer : ℕ → ℕ) (n : ℕ) (s : Fs)
      → n ≡ length l
      → Ready b e k n s
      → ((p : ℕ) → p < length l → buffer p ≡ char_at l p)
      → Ends (λ r s'. (r ≡ some n) × Appends b e k l s s') (tfs_write (some k) buffer n s)
  tfs_write-Appends l buffer n s en r same =
      let small = r.valid.inv.root.small in
      let fits = r.room in
      subst
        (λ x. Ends (λ r' s'. (r' ≡ some x) × Appends b e k l s s') (tfs_write (some k) buffer x s))
        (sym en)
        (Ends-mono
          (tfs_write-Written s k buffer (length l) r.valid r.in_table r.opened r.exists
            (omega arith))
          (λ q s'. Written-Appends l buffer s q s' (subst (λ x. Ready b e k x s) en r) same))

  -- A message that fits goes to the end of the file, with a zero after it.
  pub write_message-Appends :
      (message : Name) (s : Fs)
      → Ready b e k (length message + 1) s
      → Ends
          (λ r s'. (r ≡ some (length message)) × Appends b e k (message ++ (0 ∷ [])) s s')
          (write_message (some k) message s)
  unfolding write_message branch on_index
  write_message-Appends message s r =
      Ends->>= _ _ s
        (tfs_write-Appends message (char_at message) (length message) s refl
          (Ready-less (omega arith) r) (λ p lt. refl))
        λ c t (ec, first).
          let all : is_count c (length message) ≡ true = ground arith in
          let r' : Ready b e k 1 t = Ready-Appends refl r first in
          rw (all) (
            Ends->>= _ _ t (tfs_write-Appends (0 ∷ []) (λ p. 0) 1 t refl r' zero_byte)
              λ d u (ed, last). rw ed (Ends-done (pure-eq c u) (ec, Appends-trans r first last)))
