-- ===== src/Clients/Entries.antt =====
-- The entries of the list of boxes, from `handle_list` of mbroker/mbroker.c to `list_boxes` of
-- manager/manager.c.
use so_project.Base.{
  ℕ, zero, suc, ◌+◌, ◌-◌, ◌%◌, ◌≤◌, ◌<◌, ◌≡◌, refl, ap, sym, ◌∙◌, inl, inr, fun_ext, Bool, true,
  false, Bool-cases, Option, some, List, [], ◌∷◌, Name, length, c_string, ◌==◌, if_true,
  if◌then◌else◌, arith,
}
use mathlib.Core.Path.{ap₂}
use so_project.Protocol.Memory.{field, IsText}
use so_project.Protocol.Requests.{WriteResult, wrote}
use so_project.Protocol.Responses.{
  ListManagerResponse, sizeof_list_manager_response, list_manager_response_init,
  list_manager_response_send,
}
use so_project.Protocol.RoundTrip.{list_manager_response_init_lem}
use so_project.Broker.Boxes.{Box}
use so_project.Broker.Sessions.{is_written, list_boxes}
use so_project.Clients.Manager.{ListRead, entry, collect, Line, line_of, lines_of}

-- A box's line.
abbrev pub box_line : Name → Box → Line
box_line name box = record {
  name = name;
  box_size = box.size;
  n_publishers = box.n_publishers;
  n_subscribers = box.n_subscribers;
}

abbrev pub tail : Name → Name
tail [] = []
tail (c ∷ name) = name

-- The lines of the boxes in use among `n` from place `i` on.
abbrev pub used_lines : ℕ → ℕ → (ℕ → Box) → List Line
used_lines zero i boxes = []
used_lines (suc n) i boxes =
    if (boxes i).used
    then box_line (tail (boxes i).name) (boxes i) ∷ used_lines n (i + 1) boxes
    else used_lines n (i + 1) boxes

abbrev pub count : {A : Type 0} → (A → Bool) → List A → ℕ
count p [] = 0
count p (a ∷ rest) = if p a then count p rest + 1 else count p rest

-- Each response is read whole; then the pipe is closed.
abbrev pub reads_of : List ListManagerResponse → List ListRead
reads_of [] = []
reads_of (r ∷ rest) = entry r ∷ reads_of rest

abbrev pub is_empty : List ListManagerResponse → Bool
is_empty [] = true
is_empty (r ∷ rest) = false

-- A box's name, as `box_initialize` makes it, fits in a response.
abbrev pub IsNamed : Box → Type 0
IsNamed box =
    (name : Name) × (box.name ≡ b'/' ∷ name) × IsText (b'/' ∷ name) × (length (b'/' ∷ name) < 32)

field_tail : (n c : ℕ) (s : Name) (m : ℕ → ℕ) → field (suc n) 0 m ≡ c ∷ s → field n 1 m ≡ s
unfolding c_string
field_tail n c s m h =
    let same : field n 1 m ≡ c_string n (λ k. m (0 + (k + 1))) =
      ap (c_string n) (fun_ext λ k. ap m (omega arith)) in
    elim (Bool-cases (m (0 + 0) == 0)) [
      | inl z ↦ let bad = rw z at h in absurd cc
      | inr z ↦ let good = rw z at h in same ∙ cc
    ]

-- A box's response reads as its line.
response-line :
    (last : ℕ) (box : Box)
    → IsNamed box
    → (r : ListManagerResponse) × (list_manager_response_init last
          (some box.name)
          box.size
          box.n_publishers
          box.n_subscribers
        ≡ some r)
      × (r.last_flag ≡ last % 256)
      × (line_of r ≡ box_line (tail box.name) box)
response-line last box (name, named, text, fits) =
    let (r, made, op, flag, back, size, pubs, subs) =
      list_manager_response_init_lem last (b'/' ∷ name) box.size box.n_publishers box.n_subscribers
        text fits in
    (
      r,
      rw named made,
      flag,
      (let at_name : field 31 1 r.box_name ≡ name = field_tail 31 b'/' name r.box_name back in
          rw (at_name, size, pubs, subs, named) refl),
    )

-- What the broker sends is what the manager reads, from place `i` on.
pub record Listed (n i : ℕ) (boxes : ℕ → Box) (out : Option (List ListManagerResponse))
    : Type 0 where
  pub sent : List ListManagerResponse
  pub result : out ≡ some sent
  pub lines : lines_of sent ≡ used_lines n i boxes
  pub read :
      (room : ℕ) → length sent ≤ room → collect room (reads_of sent) ≡ some (sent, is_empty sent)

no_lines : (ls : List Line) → length ls ≡ 0 → ls ≡ []
no_lines [] h = refl
no_lines (l ∷ ls) h = absurd (omega arith)

pub length-lines_of : (rs : List ListManagerResponse) → length (lines_of rs) ≡ length rs
length-lines_of [] = refl
length-lines_of (r ∷ rs) = ap suc (length-lines_of rs)

pub is_empty-eq : (rs : List ListManagerResponse) → is_empty rs ≡ (length rs == 0)
is_empty-eq [] = refl
is_empty-eq (r ∷ rs) = ground arith

no_responses : (rs : List ListManagerResponse) → length rs ≡ 0 → rs ≡ []
no_responses [] h = refl
no_responses (r ∷ rs) h = absurd (omega arith)

-- The manager stops at the entry with the last flag, and goes on after another.
collect-eq_last :
    (room : ℕ) (r : ListManagerResponse) (rest : List ListRead)
    → 0 < room
    → r.last_flag ≡ 1
    → collect room (entry r ∷ rest) ≡ some (r ∷ [], false)
unfolding collect
collect-eq_last room r rest lt last =
    let some_room : (room == 0) ≡ false = ground arith in rw (some_room, last, collect) refl

collect-eq_more :
    (room : ℕ) (r : ListManagerResponse) (rest : List ListRead) (rs : List ListManagerResponse)
    (none_found : Bool)
    → 0 < room
    → (r.last_flag == 1) ≡ false
    → collect (room - 1) rest ≡ some (rs, none_found)
    → collect room (entry r ∷ rest) ≡ some (r ∷ rs, none_found)
unfolding collect
collect-eq_more room r rest rs none_found lt more h =
    let some_room : (room == 0) ≡ false = ground arith in rw (some_room, more, h, collect) refl

module _ (writes : ℕ → WriteResult) (boxes : ℕ → Box) (box_count n i j : ℕ) where
  list_boxes-eq_counted :
      (j == box_count) ≡ true → list_boxes (suc n) i j box_count writes boxes ≡ some []
  unfolding list_boxes
  list_boxes-eq_counted h = rw (h, list_boxes) refl

  list_boxes-eq_skipped :
      (j == box_count) ≡ false
      → (boxes i).used ≡ false
      → list_boxes (suc n) i j box_count writes boxes
        ≡ list_boxes n (i + 1) j box_count writes boxes
  unfolding list_boxes
  list_boxes-eq_skipped h unused = rw (h, unused, list_boxes) refl

  list_boxes-eq_sent :
      (last : ℕ) (r : ListManagerResponse) (rest : List ListManagerResponse)
      → (j == box_count) ≡ false
      → (boxes i).used ≡ true
      → last ≡ (if j + 1 == box_count then 1 else 0)
      → list_manager_response_init last
          (some (boxes i).name)
          (boxes i).size
          (boxes i).n_publishers
          (boxes i).n_subscribers
        ≡ some r
      → writes j ≡ wrote sizeof_list_manager_response
      → list_boxes n (i + 1) (j + 1) box_count writes boxes ≡ some rest
      → list_boxes (suc n) i j box_count writes boxes ≡ some (r ∷ rest)
  unfolding list_boxes list_manager_response_send
  list_boxes-eq_sent last r rest h used el made sent more =
      let whole : is_written (writes j) ≡ true = rw sent refl in
      rw (h, used, ← el, made, sent, more, list_boxes)
        (ap (λ c. some (if c then r ∷ rest else rest)) whole)

module _ (writes : ℕ → WriteResult) (boxes : ℕ → Box) (box_count : ℕ)
    (all_sent : (k : ℕ) → writes k ≡ wrote sizeof_list_manager_response)
    (named : (i : ℕ) → (boxes i).used ≡ true → IsNamed (boxes i)) where
  nothing-Listed :
      (n i : ℕ) (out : Option (List ListManagerResponse))
      → out ≡ some []
      → used_lines n i boxes ≡ []
      → Listed n i boxes out
  unfolding collect
  nothing-Listed n i out e none_used = record {
    sent = [];
    result = e;
    lines = sym none_used;
    read = λ room le. refl;
  }

  -- A box in use is sent before the others.
  one_more-Listed :
      (n i j last : ℕ) (r : ListManagerResponse)
      → (j == box_count) ≡ false
      → (boxes i).used ≡ true
      → j + 1 + length (used_lines n (i + 1) boxes) ≡ box_count
      → last ≡ (if j + 1 == box_count then 1 else 0)
      → list_manager_response_init last
          (some (boxes i).name)
          (boxes i).size
          (boxes i).n_publishers
          (boxes i).n_subscribers
        ≡ some r
      → r.last_flag ≡ last % 256
      → line_of r ≡ box_line (tail (boxes i).name) (boxes i)
      → Listed n (i + 1) boxes (list_boxes n (i + 1) (j + 1) box_count writes boxes)
      → Listed (suc n) i boxes (list_boxes (suc n) i j box_count writes boxes)
  one_more-Listed n i j last r h used e el made flag line v =
      let len : length v.sent ≡ length (used_lines n (i + 1) boxes) =
        sym (length-lines_of v.sent) ∙ ap (λ (l : List Line). length l) v.lines in
      record {
        sent = r ∷ v.sent;
        result =
            list_boxes-eq_sent writes boxes box_count n i j last r v.sent h used el made
              (all_sent j) v.result;
        lines = ap₂ ◌∷◌ line v.lines ∙ sym (if_true (boxes i).used _ _ used);
        read = λ room le. elim (Bool-cases (j + 1 == box_count)) [
          | inl at_last ↦
              let none_after : v.sent ≡ [] = no_responses v.sent (ground arith) in
              let flagged : r.last_flag ≡ 1 = ground arith in
              rw none_after (collect-eq_last room r [] (omega arith) flagged)
          | inr before ↦
              let unflagged : r.last_flag ≡ 0 = ground arith in
              let some_after : is_empty v.sent ≡ false = is_empty-eq v.sent ∙ ground arith in
              collect-eq_more room r (reads_of v.sent) v.sent false (omega arith) (ground arith)
                (v.read (room - 1) (omega arith) ∙ ap (λ x. some (v.sent, x)) some_after)
        ];
      }

  pub list_boxes-Listed :
      (n i j : ℕ)
      → j + length (used_lines n i boxes) ≡ box_count
      → Listed n i boxes (list_boxes n i j box_count writes boxes)
  unfolding list_boxes
  list_boxes-Listed zero i j e = nothing-Listed zero i (some []) refl refl
  list_boxes-Listed (suc n) i j e = elim (Bool-cases (j == box_count)) [
    | inl counted ↦
        nothing-Listed (suc n) i _ (list_boxes-eq_counted writes boxes box_count n i j counted)
          (no_lines _ (ground arith))
    | inr h ↦ elim (Bool-cases (boxes i).used) [
      | inl used ↦
          let e' : j + 1 + length (used_lines n (i + 1) boxes) ≡ box_count =
            (let x = rw used at e in omega arith) in
          let last = if j + 1 == box_count then 1 else 0 in
          let (r, made, flag, line) = response-line last (boxes i) (named i used) in
          one_more-Listed n i j last r h used e' refl made flag line
            (list_boxes-Listed n (i + 1) (j + 1) e')
      | inr unused ↦
          let x = rw unused at e in
          let v = list_boxes-Listed n (i + 1) j x in
          record {
            sent = v.sent;
            result = list_boxes-eq_skipped writes boxes box_count n i j h unused ∙ v.result;
            lines = rw unused v.lines;
            read = v.read;
          }
    ]
  ]
