-- ===== src/Clients/Listing.antt =====
-- The listing of the boxes: `handle_list` of mbroker/mbroker.c and `list_boxes` of manager/manager.c.
use Prim.Native.Nat.{Ordering}
use so_project.Base.{
  ℕ, zero, suc, ◌+◌, ◌≤◌, ◌≡◌, refl, ap, sym, ◌∙◌, Bool, true, some, List, [], ◌∷◌, length, ◌==◌,
  if◌then◌else◌, arith,
}
use so_project.Protocol.Requests.{WriteResult, wrote}
use so_project.Protocol.Responses.{ListManagerResponse, sizeof_list_manager_response}
use so_project.Broker.Boxes.{box_count_max, Box}
use so_project.Broker.Sessions.{Session, list_boxes, handle_list}
use so_project.Clients.Manager.{ListRead, collect, cmpstr, Line, line_of, lines_of, print_boxes}
use so_project.Clients.Entries.{
  used_lines, count, reads_of, is_empty, IsNamed, length-lines_of, is_empty-eq, list_boxes-Listed,
}

handle_list-eq :
    (writes : ℕ → WriteResult) (s : Session) (sent : List ListManagerResponse)
    → list_boxes box_count_max 0 0 s.box_count writes s.broker.mbroker_boxes ≡ some sent
    → handle_list true writes s ≡ some (true, sent)
unfolding handle_list
handle_list-eq writes s sent h = rw (h, handle_list) refl

print_boxes-eq :
    (qsort : (ListManagerResponse → ListManagerResponse → Ordering)
      → List ListManagerResponse
      → List ListManagerResponse)
    (reads : List ListRead) (rs : List ListManagerResponse) (none_found : Bool)
    → collect 1024 reads ≡ some (rs, none_found)
    → print_boxes qsort reads ≡ some (none_found, lines_of (qsort cmpstr rs))
unfolding print_boxes
print_boxes-eq qsort reads rs none_found h = rw (h, print_boxes) refl

count-lines_of :
    (p : Line → Bool) (rs : List ListManagerResponse)
    → count p (lines_of rs) ≡ count (λ r. p (line_of r)) rs
count-lines_of p [] = refl
count-lines_of p (r ∷ rs) = ap (λ n. if p (line_of r) then n + 1 else n) (count-lines_of p rs)

length-used_lines : (n i : ℕ) (boxes : ℕ → Box) → length (used_lines n i boxes) ≤ n
length-used_lines zero i boxes = omega arith
length-used_lines (suc n) i boxes = ground (arith, length-used_lines n (i + 1) boxes)

-- When every response is written whole and `qsort` permutes the entries, the count of boxes is
-- right and the names of the boxes fit: `handle_list` sends responses that the manager, reading
-- them until the one with the last flag, prints as lines, the same ones, as often, as there are
-- boxes in use with that name and these numbers; it says that there are no boxes just when there
-- are none.
pub print_boxes-used_lines :
    (qsort : (ListManagerResponse → ListManagerResponse → Ordering)
      → List ListManagerResponse
      → List ListManagerResponse)
    (writes : ℕ → WriteResult) (s : Session)
    → ((rs : List ListManagerResponse) (p : ListManagerResponse → Bool)
        → count p (qsort cmpstr rs) ≡ count p rs)
    → ((k : ℕ) → writes k ≡ wrote sizeof_list_manager_response)
    → ((i : ℕ) → (s.broker.mbroker_boxes i).used ≡ true → IsNamed (s.broker.mbroker_boxes i))
    → length (used_lines box_count_max 0 s.broker.mbroker_boxes) ≡ s.box_count
    → (sent : List ListManagerResponse) × (handle_list true writes s ≡ some (true, sent))
      × ((ls : List Line) × (print_boxes qsort (reads_of sent) ≡ some (s.box_count == 0, ls))
          × ((p : Line → Bool)
              → count p ls ≡ count p (used_lines box_count_max 0 s.broker.mbroker_boxes)))
print_boxes-used_lines qsort writes s permutes all_sent named counted =
    let boxes = s.broker.mbroker_boxes in
    let v =
      list_boxes-Listed writes boxes s.box_count all_sent named box_count_max 0 0
        (omega (arith, counted)) in
    let len : length v.sent ≡ s.box_count =
      sym (length-lines_of v.sent) ∙ ap (λ (l : List Line). length l) v.lines ∙ counted in
    let fits : length v.sent ≤ 1024 =
      omega (arith, len, counted, length-used_lines box_count_max 0 boxes) in
    let empty : is_empty v.sent ≡ (s.box_count == 0) = is_empty-eq v.sent ∙ ap (λ n. n == 0) len in
    (
      v.sent,
      handle_list-eq writes s v.sent v.result,
      (
        lines_of (qsort cmpstr v.sent),
        print_boxes-eq qsort (reads_of v.sent) v.sent (s.box_count == 0)
            (v.read 1024 fits ∙ ap (λ x. some (v.sent, x)) empty),
        λ p.
            count-lines_of p (qsort cmpstr v.sent)
            ∙ permutes v.sent (λ r. p (line_of r))
            ∙ sym (count-lines_of p v.sent)
            ∙ ap (count p) v.lines,
      ),
    )
