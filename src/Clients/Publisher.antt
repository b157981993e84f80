-- ===== src/Clients/Publisher.antt =====
-- publisher/pub.c: lines of the standard input as messages.
use so_project.Base.{
  ℕ, zero, suc, ◌+◌, ◌-◌, Bool, Option, none, some, List, [], ◌∷◌, Name, ◌||◌, ◌==◌, if◌then◌else◌,
}
use so_project.Protocol.Requests.{
  message_length, PublisherRequest, WriteResult, publisher_request_init, publisher_request_send,
}

abbrev pub newline : ℕ
newline = b'\n'

-- `fgets`: at most `n` characters, up to a newline and with it, and what is left.
unfoldable pub fgets_from : ℕ → List ℕ → List ℕ × List ℕ
fgets_from zero input = ([], input)
fgets_from (suc n) [] = ([], [])
fgets_from (suc n) (c ∷ input) =
    let more = fgets_from n input in if c == newline then (c ∷ [], input) else (c ∷ more.0, more.1)

-- `fgets(buffer, size, stdin)`; `none` is the null pointer at the end of the input.
unfoldable pub fgets : ℕ → List ℕ → Option (List ℕ × List ℕ)
fgets size [] = none
fgets size (c ∷ input) = some (fgets_from (size - 1) (c ∷ input))

-- The string in the buffer after `strcspn(BUFFER, "\n")` and `memset`.
unfoldable pub until_newline : List ℕ → Name
until_newline [] = []
until_newline (c ∷ buffer) =
    let rest = until_newline buffer in if c == newline || c == 0 then [] else c ∷ rest

-- How the loop ends: with the input, or by `exit_failure` after a request that is not sent, with
-- whether the broker has closed the pipe.
pub data PublisherEnd : Type 0 where
  input_over : PublisherEnd
  not_sent : Bool → PublisherEnd

abbrev and_sent :
    PublisherRequest → List PublisherRequest × PublisherEnd → List PublisherRequest × PublisherEnd
and_sent req r = (req ∷ r.0, r.1)

-- A request is sent, or the loop ends; `rest` is what the loop does after it.
unfoldable pub send_line :
    Option PublisherRequest
    → WriteResult
    → (PublisherRequest → Option (List PublisherRequest × PublisherEnd))
    → Option (List PublisherRequest × PublisherEnd)
send_line none write rest = none
send_line (some req) write rest =
    let ret = publisher_request_send write in
    let after = rest req in
    if ret == 0
    then elim after [ none ↦ none | some r ↦ some (and_sent req r) ]
    else some ([], not_sent (ret == 1))

-- The requests that are sent. `write k` is the result of the write of line `k`, and `p_req` what the
-- request holds before. `none` is a message that does not fit, or no fuel: it bounds the number of lines.
unfoldable pub publish_input :
    ℕ
    → (ℕ → WriteResult)
    → ℕ
    → PublisherRequest
    → List ℕ
    → Option (List PublisherRequest × PublisherEnd)
publish_input zero write k p_req input = none
publish_input (suc fuel) write k p_req input = elim (fgets message_length input) [
  | none ↦ some ([], input_over)
  | some (buffer, rest) ↦
      send_line (publisher_request_init (until_newline buffer) p_req) (write k)
        (λ req. publish_input fuel write (k + 1) req rest)
]
