-- ===== src/Broker/Pending.antt =====
-- A box with a publisher's handle and a subscriber's handle: the messages that are between the two.
use mathlib.Core.List.{append_assoc, append-nil}
use so_project.Base.{
  ℕ, ◌+◌, ◌-◌, ◌<◌, ◌≡◌, ap, sym, ◌∙◌, ◌≢◌, subst, true, false, List, [], ◌∷◌, ◌++◌, Name, length,
  length-append, add_size, arith,
}
use native.Mathlib.Decide.{dec_lt}
use so_project.Tfs.Types.{DirEntry, taken, OpenFileEntry, Fs}
use so_project.Tfs.Valid.{IsValid}
use so_project.Tfs.Contents.{byte_at}
use so_project.Protocol.Memory.{char_at, IsText}
use so_project.Protocol.Requests.{message_length}
use so_project.Broker.Boxes.{Box, Broker}
use so_project.Broker.Writing.{
  Ready, Appends, Ready-Appends, char_at-append_left, char_at-append_right,
}
use so_project.Broker.Reading.{Holds, HoldsHere, Passes, Passes-Holds}
use so_project.Broker.Sending.{Sent}
use so_project.Broker.Receiving.{Received}

-- The messages as they are in the file, each with its zero.
abbrev pub encode : List Name → List ℕ
encode [] = []
encode (m ∷ q) = (m ++ (0 ∷ [])) ++ encode q

-- Messages that a request can carry.
abbrev pub AreTexts : List Name → Type 0
AreTexts [] = Unit {0}
AreTexts (m ∷ q) = IsText m × (length m < message_length) × AreTexts q

-- Box `i`, the publisher's handle `k` and the subscriber's handle `j`: the subscriber has read
-- `total` bytes, the messages `q` are still to be read, and the file can take `room` more bytes.
pub record Linked (b : ℕ) (e : ℕ → DirEntry) (i k j room total : ℕ) (q : List Name) (s : Broker)
    : Type 0 where
  pub ready : Ready b e k room s.fs
  pub in_table : j < s.fs.fs_params.max_open_files_count
  pub opened : s.fs.free_open_file_entries j ≡ taken
  pub apart : j ≢ k
  pub same_file : (s.fs.open_file_table j).of_inumber ≡ (s.fs.open_file_table k).of_inumber
  pub pending : HoldsHere j (encode q) s.fs
  pub up_to_end :
      (s.fs.open_file_table j).of_offset + length (encode q) ≡ (s.fs.open_file_table k).of_offset
  pub unlocked : (s.mbroker_boxes i).mutex ≡ false
  pub used : (s.mbroker_boxes i).used ≡ true
  pub counted : (s.mbroker_boxes i).size ≡ (s.fs.open_file_table k).of_offset
  pub read_so_far : total ≡ (s.fs.open_file_table j).of_offset
  pub texts : AreTexts q

-- Bytes of a file one after the other.
Holds-append :
    {i p : ℕ} {l m : List ℕ} {s : Fs}
    → Holds i p l s
    → Holds i (p + length l) m s
    → Holds i p (l ++ m) s
Holds-append {i} {p} {l} {m} {s} h h' = record {
  within = let fits = h'.within in omega (arith, length-append l m);
  same = λ q lt. elim (dec_lt q (length l)) [
    | yes first ↦ h.same q first ∙ sym (char_at-append_left l m q first)
    | no later ↦
        let y = q - length l in
        let eq : length l + y ≡ q = omega arith in
        let ep : p + q ≡ p + length l + y = omega arith in
        ap (byte_at s i) ep
        ∙ h'.same y (omega (arith, length-append l m))
        ∙ sym (char_at-append_right l m y)
        ∙ ap (char_at (l ++ m)) eq
  ];
}

pub Holds-first :
    {i p : ℕ} {l : List ℕ} {s : Fs} (m : List ℕ) → Holds i p (l ++ m) s → Holds i p l s
Holds-first {l} m h = record {
  within = let fits = h.within in omega (arith, length-append l m);
  same = λ q lt. h.same q (omega (arith, length-append l m)) ∙ char_at-append_left l m q lt;
}

Holds-second :
    {i p : ℕ} (l : List ℕ) {m : List ℕ} {s : Fs} → Holds i p (l ++ m) s → Holds i (p + length l) m s
Holds-second {i} {p} l {m} {s} h = record {
  within = let fits = h.within in omega (arith, length-append l m);
  same = λ q lt.
      let ep : p + length l + q ≡ p + (length l + q) = omega arith in
      ap (byte_at s i) ep
      ∙ h.same (length l + q) (omega (arith, length-append l m))
      ∙ char_at-append_right l m q;
}

encode-append : (q : List Name) (m : Name) → encode (q ++ (m ∷ [])) ≡ encode q ++ (m ++ (0 ∷ []))
encode-append [] m = append-nil (m ++ (0 ∷ []))
encode-append (x ∷ q) m =
    ap (λ l. (x ++ (0 ∷ [])) ++ l) (encode-append q m)
    ∙ sym (append_assoc (x ++ (0 ∷ [])) (encode q) (m ++ (0 ∷ [])))

AreTexts-append :
    (q : List Name) (m : Name)
    → AreTexts q
    → IsText m
    → length m < message_length
    → AreTexts (q ++ (m ∷ []))
AreTexts-append [] m t tm lt = (tm, lt, tt)
AreTexts-append (x ∷ q) m (tx, ltx, t) tm lt = (tx, ltx, AreTexts-append q m t tm lt)

module _ {b : ℕ} {e : ℕ → DirEntry} {k j : ℕ} where
  -- The subscriber's bytes are still there after an append, with the new ones behind them.
  Holds-Appends :
      {l m : List ℕ} {room : ℕ} {s s' : Fs}
      → Ready b e k room s
      → (s.open_file_table j).of_inumber ≡ (s.open_file_table k).of_inumber
      → (s.open_file_table j).of_offset + length l ≡ (s.open_file_table k).of_offset
      → j ≢ k
      → HoldsHere j l s
      → Appends b e k m s s'
      → HoldsHere j (l ++ m) s'
  Holds-Appends {l} {m} {s} {s'} r same upto ne h a =
      let f = (s.open_file_table k).of_inumber in
      let p = (s.open_file_table j).of_offset in
      let end_s = r.at_end in
      let grown = a.size in
      let old : Holds f p l s = subst (λ x. Holds x p l s) same h in
      let within_s = old.within in
      let kept : Holds f p l s' = record {
        within = omega arith;
        same = λ q lt. a.below (p + q) (omega arith) ∙ old.same q lt;
      } in
      let fresh : Holds f (p + length l) m s' = record {
        within = omega arith;
        same = λ q lt.
            let here : p + length l + q ≡ (s.open_file_table k).of_offset + q = omega arith in
            ap (byte_at s' f) here ∙ a.inside q lt;
      } in
      subst (λ (x : OpenFileEntry). Holds x.of_inumber x.of_offset (l ++ m) s')
        (sym (a.other_handles j ne))
        (subst (λ x. Holds x p (l ++ m) s') (sym same) (Holds-append kept fresh))

  -- The invariant after a message that is sent.
  pub Linked-Sent :
      {i room m total : ℕ} {q : List Name} {message : Name} {s s' : Broker}
      → m ≡ length message + 1 + room
      → IsText message
      → length message < message_length
      → Linked b e i k j m total q s
      → Sent b e i k message s s'
      → Linked b e i k j room total (q ++ (message ∷ [])) s'
  Linked-Sent {i} {room} {q} {message} {s} {s'} em t lt v p =
      let a = p.appended in
      let at_j : s'.fs.open_file_table j ≡ s.fs.open_file_table j = a.other_handles j v.apart in
      let len = length-append message (0 ∷ []) in
      let grown : (s'.mbroker_boxes i).size
          ≡ add_size (s.mbroker_boxes i).size (add_size (length message) 1) =
        ap (λ (x : Box). x.size) p.box in
      let fits = v.ready.room in
      let small = v.ready.valid.inv.root.small in
      let counted = v.counted in
      let moved = a.offset in
      let upto = v.up_to_end in
      record {
        ready = Ready-Appends (omega arith) v.ready a;
        in_table = ground (arith, v.in_table, a.same_params);
        opened = a.in_use j ∙ v.opened;
        apart = v.apart;
        same_file = ap (λ (x : OpenFileEntry). x.of_inumber) at_j ∙ v.same_file ∙ sym a.same_file;
        pending =
            subst (λ l. HoldsHere j l s'.fs) (sym (encode-append q message))
              (Holds-Appends v.ready v.same_file v.up_to_end v.apart v.pending a);
        up_to_end = omega (
          arith,
          ap (λ (x : OpenFileEntry). x.of_offset) at_j,
          ap (λ (l : List ℕ). length l) (encode-append q message),
          length-append (encode q) (message ++ (0 ∷ [])),
        );
        unlocked = ap (λ (x : Box). x.mutex) p.box;
        used = ap (λ (x : Box). x.used) p.box ∙ v.used;
        counted = grown ∙ omega arith;
        read_so_far = v.read_so_far ∙ sym (ap (λ (x : OpenFileEntry). x.of_offset) at_j);
        texts = AreTexts-append q message v.texts t lt;
      }

  -- The publisher's side, when only the subscriber's handle moves.
  Ready-Passes :
      {n room : ℕ} {s s' : Fs}
      → j ≢ k
      → Ready b e k room s
      → Passes b e j n s s'
      → Ready b e k room s'
  Ready-Passes {room} {s} {s'} ne r p =
      let at_k : s'.open_file_table k ≡ s.open_file_table k = p.other_handles k (λ z. ne (sym z)) in
      subst (Ready b e k room) (sym p.rest) (record {
        valid = subst (λ t. IsValid b e t) p.rest p.valid;
        in_table = r.in_table;
        opened = r.opened;
        exists = rw at_k r.exists;
        at_end = rw at_k r.at_end;
        room = rw at_k r.room;
        block = rw at_k r.block;
      })

  -- The invariant after a message that is received.
  pub Linked-Received :
      {i room total : ℕ} {q : List Name} {message : Name} {s s' : Broker}
      → Linked b e i k j room total (message ∷ q) s
      → Received b e i j message s s'
      → Linked b e i k j room (add_size total (length message + 1)) q s'
  Linked-Received {i} {room} {total} {q} {message} {s} {s'} v r =
      let p = r.passed in
      let at_k : s'.fs.open_file_table k ≡ s.fs.open_file_table k =
        p.other_handles k (λ z. v.apart (sym z)) in
      let params : s'.fs.fs_params ≡ s.fs.fs_params = ap (λ (t : Fs). t.fs_params) p.rest in
      let states : s'.fs.free_open_file_entries ≡ s.fs.free_open_file_entries =
        ap (λ (t : Fs). t.free_open_file_entries) p.rest in
      let len = length-append message (0 ∷ []) in
      let all = length-append (message ++ (0 ∷ [])) (encode q) in
      let fits = v.ready.room in
      let small = v.ready.valid.inv.root.small in
      let upto = v.up_to_end in
      let moved = p.offset in
      let so_far = v.read_so_far in
      let ep : (s.fs.open_file_table j).of_offset + length (message ++ (0 ∷ []))
          ≡ (s'.fs.open_file_table j).of_offset =
        omega arith in
      let later : Holds (s.fs.open_file_table j).of_inumber (s'.fs.open_file_table j).of_offset
          (encode q) s.fs =
        subst (λ x. Holds (s.fs.open_file_table j).of_inumber x (encode q) s.fs) ep
          (Holds-second (message ++ (0 ∷ [])) v.pending) in
      record {
        ready = Ready-Passes v.apart v.ready p;
        in_table = rw params v.in_table;
        opened = rw states v.opened;
        apart = v.apart;
        same_file = p.same_file ∙ v.same_file ∙ sym (ap (λ (x : OpenFileEntry). x.of_inumber) at_k);
        pending = rw p.same_file (Passes-Holds p later);
        up_to_end = omega (arith, ap (λ (x : OpenFileEntry). x.of_offset) at_k);
        unlocked = ap (λ (x : Box). x.mutex) r.box;
        used = ap (λ (x : Box). x.used) r.box ∙ v.used;
        counted =
            ap (λ (x : Box). x.size) r.box
            ∙ v.counted
            ∙ sym (ap (λ (x : OpenFileEntry). x.of_offset) at_k);
        read_so_far = omega arith;
        texts = v.texts.2;
      }
