-- ===== src/Clients/Lines.antt =====
-- publisher/pub.c on an input of lines.
use so_project.Base.{
  ℕ, zero, suc, ◌+◌, ◌-◌, ◌<◌, ◌≡◌, refl, ap, ◌∙◌, ◌≢◌, inl, inr, false, Bool-cases, Option, none,
  some, List, [], ◌∷◌, ◌++◌, Name, length, ◌==◌, ne→not_==, arith,
}
use mathlib.Core.Path.{ap₂}
use so_project.Protocol.Memory.{char_at, IsText}
use so_project.Protocol.Requests.{
  message_length, PublisherRequest, WriteResult, publisher_request_init, publisher_request_send,
}
use so_project.Protocol.RoundTrip.{publisher_request_init-subscriber_response_init}
use so_project.Clients.Publisher.{
  newline, fgets_from, fgets, until_newline, PublisherEnd, input_over, send_line, publish_input,
}
use so_project.Broker.Delivery.{texts_of}

-- A line without its newline: no newline and no zero inside.
abbrev pub IsLine : Name → Type 0
IsLine [] = Unit {0}
IsLine (c ∷ l) = (c ≢ newline) × (c ≢ 0) × IsLine l

-- Lines that fit in the buffer with their newline.
abbrev pub AreLines : List Name → Type 0
AreLines [] = Unit {0}
AreLines (l ∷ rest) = IsLine l × (length l + 1 < message_length) × AreLines rest

abbrev pub input_of : List Name → List ℕ
input_of [] = []
input_of (l ∷ rest) = l ++ (newline ∷ input_of rest)

IsLine-IsText : (l : Name) → IsLine l → IsText l
unfolding char_at
IsLine-IsText [] h k lt = absurd (omega arith)
IsLine-IsText (c ∷ l) (ne, nz, h) k lt = elim (Bool-cases (k == 0)) [
  | inl first ↦ rw first nz
  | inr later ↦ rw later (IsLine-IsText l h (k - 1) (ground arith))
]

fgets_from-eq :
    (l : Name) (n : ℕ) (input : List ℕ)
    → IsLine l
    → length l < n
    → fgets_from n (l ++ (newline ∷ input)) ≡ (l ++ (newline ∷ []), input)
unfolding fgets_from
fgets_from-eq l zero input h lt = absurd (omega arith)
fgets_from-eq [] (suc n) input h lt = refl
fgets_from-eq (c ∷ l) (suc n) input (ne, nz, h) lt =
    let other : (c == newline) ≡ false = ne→not_== _ _ ne in
    rw (other, fgets_from-eq l n input h (omega arith)) refl

fgets-eq :
    (l : Name) (input : List ℕ)
    → IsLine l
    → length l + 1 < message_length
    → fgets message_length (l ++ (newline ∷ input)) ≡ some (l ++ (newline ∷ []), input)
unfolding fgets
fgets-eq [] input h lt = ap some (fgets_from-eq [] 1023 input h (omega arith))
fgets-eq (c ∷ l) input h lt = ap some (fgets_from-eq (c ∷ l) 1023 input h (omega arith))

fgets_over : (n : ℕ) → fgets n [] ≡ none
unfolding fgets
fgets_over n = refl

until_newline-eq : (l : Name) → IsLine l → until_newline (l ++ (newline ∷ [])) ≡ l
unfolding until_newline
until_newline-eq [] h = refl
until_newline-eq (c ∷ l) (ne, nz, h) =
    let other : (c == newline) ≡ false = ne→not_== _ _ ne in
    let text : (c == 0) ≡ false = ne→not_== _ _ nz in rw (other, text, until_newline-eq l h) refl

send_line-eq :
    (made : Option PublisherRequest) (write : WriteResult)
    (rest : PublisherRequest → Option (List PublisherRequest × PublisherEnd))
    (req : PublisherRequest) (reqs : List PublisherRequest) (how : PublisherEnd)
    → made ≡ some req
    → publisher_request_send write ≡ 0
    → rest req ≡ some (reqs, how)
    → send_line made write rest ≡ some (req ∷ reqs, how)
unfolding send_line
send_line-eq made write rest req reqs how em sent er = rw (em, sent, er) refl

module _ (fuel : ℕ) (write : ℕ → WriteResult) (k : ℕ) (p_req : PublisherRequest)
    (input : List ℕ) where
  publish_input-over :
      fgets message_length input ≡ none
      → publish_input (suc fuel) write k p_req input ≡ some ([], input_over)
  unfolding publish_input
  publish_input-over h = rw (h, publish_input) refl

  publish_input-step :
      (buffer rest : List ℕ)
      → fgets message_length input ≡ some (buffer, rest)
      → publish_input (suc fuel) write k p_req input
        ≡ send_line
            (publisher_request_init (until_newline buffer) p_req)
            (write k)
            (λ req. publish_input fuel write (k + 1) req rest)
  unfolding publish_input
  publish_input-step buffer rest h = rw (h, publish_input) refl

-- The loop sends each line as a message, when every write takes a whole request; enough fuel is more
-- than the number of lines.
pub publish_input-lines :
    (ls : List Name) (fuel : ℕ) (write : ℕ → WriteResult) (k : ℕ) (p_req : PublisherRequest)
    → AreLines ls
    → length ls < fuel
    → ((j : ℕ) → publisher_request_send (write j) ≡ 0)
    → (reqs : List PublisherRequest) × (publish_input fuel write k p_req (input_of ls)
        ≡ some (reqs, input_over))
      × (texts_of reqs ≡ ls)
publish_input-lines ls zero write k p_req h lt sent = absurd (omega arith)
publish_input-lines [] (suc fuel) write k p_req h lt sent =
    ([], publish_input-over fuel write k p_req [] (fgets_over message_length), refl)
publish_input-lines (l ∷ ls) (suc fuel) write k p_req (line, fits, h) lt sent =
    let (req, resp, made, op, back, resp_made, resp_op, resp_back) =
      publisher_request_init-subscriber_response_init l p_req (IsLine-IsText l line)
        (omega arith) in
    let (reqs, run, same) = publish_input-lines ls fuel write (k + 1) req h (omega arith) sent in
    (
      req ∷ reqs,
      publish_input-step fuel write k p_req _ _ _ (fgets-eq l (input_of ls) line fits)
          ∙ send_line-eq _ (write k) _ req reqs input_over
              (ap (λ m. publisher_request_init m p_req) (until_newline-eq l line) ∙ made) (sent k)
              run,
      ap₂ ◌∷◌ back same,
    )
