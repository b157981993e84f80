-- ===== src/Clients/Manager.antt =====
-- manager/manager.c: requests to create, delete and list boxes.
use Prim.Native.Nat.{compare, Ordering}
use so_project.Base.{
  ℕ, ◌^◌, ◌-◌, Bool, true, false, not, ◌&&◌, ◌||◌, Option, none, some, List, [], ◌∷◌, Name, ltb,
  ◌==◌, str_eq, if◌then◌else◌,
}
use so_project.Protocol.Memory.{field}
use so_project.Protocol.Requests.{box_name_length, create_box_op, delete_box_op}
use so_project.Protocol.Responses.{ManagerResponse, ListManagerResponse}

abbrev pub create_word : Name
create_word = b'c' ∷ b'r' ∷ b'e' ∷ b'a' ∷ b't' ∷ b'e' ∷ []

abbrev pub delete_word : Name
delete_word = b'd' ∷ b'e' ∷ b'l' ∷ b'e' ∷ b't' ∷ b'e' ∷ []

abbrev pub list_word : Name
list_word = b'l' ∷ b'i' ∷ b's' ∷ b't' ∷ []

-- What `main` calls.
pub data Command : Type 0 where
  print_usage list_boxes : Command
  create_delete_box : ℕ → Command

-- `main`, for `argc`, for whether `argv[1]` is "--help", and for `argv[3]`, which is read without a
-- test that it is there.
unfoldable pub main : ℕ → Bool → Name → Command
main argc help word =
    if (ltb argc 5 && not (str_eq word list_word)) || help
    then print_usage
    else if str_eq word create_word
    then create_delete_box create_box_op
    else if str_eq word delete_word
    then create_delete_box delete_box_op
    else if str_eq word list_word
    then list_boxes
    else print_usage

-- What `create_delete_box` prints: nothing after a bad read, an error message, or OK.
pub data Answer : Type 0 where
  no_answer ok : Answer
  err : Name → Answer

unfoldable pub create_delete_answer : Option ManagerResponse → Answer
create_delete_answer none = no_answer
create_delete_answer (some resp) =
    if resp.ret_code == 2 ^ 32 - 1 then err (field 1024 0 resp.error_message) else ok

-- What `read` gives in `list_boxes`: 0, an error or a part of a response, or a response.
pub data ListRead : Type 0 where
  closed broken : ListRead
  entry : ListManagerResponse → ListRead

-- The entries up to the one with the last flag, and whether "NO BOXES FOUND" is printed. The array has
-- room for 1024 of them, which is not tested: `none` is an entry beyond it.
unfoldable pub collect : ℕ → List ListRead → Option (List ListManagerResponse × Bool)
collect room [] = some ([], true)
collect room (closed ∷ rest) = some ([], true)
collect room (broken ∷ rest) = some ([], false)
collect room (entry resp ∷ rest) =
    let more = collect (room - 1) rest in
    if room == 0
    then none
    else if resp.last_flag == 1
    then some (resp ∷ [], false)
    else elim more [ none ↦ none | some (boxes, none_found) ↦ some (resp ∷ boxes, none_found) ]

-- The sign of `strcmp`.
unfoldable pub strcmp : Name → Name → Ordering
strcmp [] [] = Ordering.eq
strcmp [] (d ∷ t) = Ordering.lt
strcmp (c ∷ s) [] = Ordering.gt
strcmp (c ∷ s) (d ∷ t) =
    let rest = strcmp s t in
    elim (compare c d) [
      | Ordering.lt ↦ Ordering.lt
      | Ordering.eq ↦ rest
      | Ordering.gt ↦ Ordering.gt
    ]

unfoldable pub cmpstr : ListManagerResponse → ListManagerResponse → Ordering
cmpstr a b = strcmp (field box_name_length 0 a.box_name) (field box_name_length 0 b.box_name)

-- A line of the listing: the name without its '/', and the numbers.
pub record Line : Type 0 where
  pub name : Name
  pub box_size : ℕ
  pub n_publishers : ℕ
  pub n_subscribers : ℕ

abbrev pub line_of : ListManagerResponse → Line
line_of r = record {
  name = field (box_name_length - 1) 1 r.box_name;
  box_size = r.box_size;
  n_publishers = r.n_publishers;
  n_subscribers = r.n_subscribers;
}

abbrev pub lines_of : List ListManagerResponse → List Line
lines_of [] = []
lines_of (r ∷ rest) = line_of r ∷ lines_of rest

-- `list_boxes`, for a sorting function: whether no box was found, and the lines.
unfoldable pub print_boxes :
    ((ListManagerResponse → ListManagerResponse → Ordering)
      → List ListManagerResponse
      → List ListManagerResponse)
    → List ListRead
    → Option (Bool × List Line)
print_boxes qsort reads = elim (collect 1024 reads) [
  | none ↦ none
  | some (boxes, none_found) ↦ some (none_found, lines_of (qsort cmpstr boxes))
]
