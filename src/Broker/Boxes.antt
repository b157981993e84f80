-- ===== src/Broker/Boxes.antt =====
-- mbroker/box.c, and `get_box` of mbroker/mbroker.c.
use so_project.Base.{
  ℕ, zero, suc, ◌+◌, ◌*◌, ◌/◌, ltb, leb, Bool, true, false, ◌&&◌, Option, none, some, List, [], ◌∷◌,
  Name, length, str_eq, first_index, update, ◌==◌, if◌then◌else◌,
}
use so_project.Tfs.Types.{Fs}
use so_project.Tfs.Types.{M}
use so_project.Base.Monad.{pure, ◌>>=◌, ◌>>◌, abort, branch, on_index}
use so_project.Tfs.Operations.{
  tfs_o_creat, tfs_open, tfs_close, tfs_write, tfs_read, tfs_unlink, base_name,
}
use so_project.Protocol.Memory.{char_at}
use so_project.Protocol.Requests.{box_name_length}

abbrev pub box_count_max : ℕ
box_count_max = 1024

-- `box_t`. The condition variable only wakes threads; the mutex is whether it is held. The name is
-- the string in the array, for a string that ends there: one of at most 31 characters.
pub record Box : Type 0 where
  pub name : Name
  pub n_publishers : ℕ
  pub n_subscribers : ℕ
  pub size : ℕ
  pub mutex : Bool
  pub used : Bool

-- The boxes and the file system.
pub record Broker : Type 0 where
  pub mbroker_boxes : ℕ → Box
  pub fs : Fs

-- The error messages of protocol/response.h. A result of 0 is `none`; with -1 goes the message
-- that is put in the response.
pub data RespErr : Type 0 where
  duplicate_box create_box_failed unknown_box delete_box_failed : RespErr

abbrev pub is_box_of : Name → Box → Bool
is_box_of name box = box.used && str_eq name (base_name (some box.name))

unfoldable pub get_box : Name → Broker → Option ℕ
get_box name s = first_index (λ i. is_box_of name (s.mbroker_boxes i)) box_count_max 0

-- What an array of `n` characters takes on the stack, which is aligned to 16 bytes.
abbrev stack_bytes : ℕ → ℕ
stack_bytes n = (n + 15) / 16 * 16

-- `tmp` is an array of the name's length and 1, and its string, with '/' in front, is a byte longer
-- with the terminator: that byte is spare on the stack, or the call leaves what C defines, `none`.
-- So it does when the string and its terminator are longer than the array of the box.
abbrev pub fits_box : Name → Bool
fits_box name =
    leb (length name + 2) (stack_bytes (length name + 1)) && ltb (length name + 1) box_name_length

unfoldable pub box_initialize : Name → Option Box
box_initialize name =
    if fits_box name
    then some (record {
      name = b'/' ∷ name;
      n_publishers = 0;
      n_subscribers = 0;
      size = 0;
      mutex = false;
      used = true;
    })
    else none

abbrev pub is_unused : Box → Bool
is_unused box = if box.used then false else true

-- The box goes to the first free place, if there is one.
unfoldable pub store_box : Box → (ℕ → Box) → ℕ → Box
store_box new_box boxes = elim (first_index (λ i. is_unused (boxes i)) box_count_max 0) [
  | none ↦ boxes
  | some i ↦ update boxes i new_box
]

-- The new box's file is created in TFS and closed; -1 is closed too. Results are as those of
-- `tfs_open`.
unfoldable pub create_file : Name → M (Option ℕ)
create_file name = do fd ← tfs_open (some name) tfs_o_creat; tfs_close fd; pure fd

-- The rest of `create_box`, with the new box.
unfoldable pub add_box : Box → Broker → Option (Option RespErr × Broker)
add_box new_box s = elim (create_file new_box.name s.fs) [
  | none ↦ none
  | some (none, fs') ↦ some (some create_box_failed, record s { fs = fs' })
  | some (some fd, fs') ↦
      some (none, record { mbroker_boxes = store_box new_box s.mbroker_boxes; fs = fs' })
]

-- `none` is an abort in the file system, or a name that leaves an array.
unfoldable pub create_box : Name → Broker → Option (Option RespErr × Broker)
create_box name s = elim (get_box name s) [
  | some i ↦ some (some duplicate_box, s)
  | none ↦ elim (box_initialize name) [ none ↦ none | some new_box ↦ add_box new_box s ]
]

abbrev pub set_box : ℕ → Box → Broker → Broker
set_box i box s = record s { mbroker_boxes = update s.mbroker_boxes i box }

-- The mutex is held: the file is removed, and the box is given up. When the file cannot be removed,
-- the mutex stays held.
unfoldable pub remove_at : ℕ → Broker → Option (Option RespErr × Broker)
remove_at i s =
    let box = s.mbroker_boxes i in
    elim (tfs_unlink (some box.name) s.fs) [
      | none ↦ none
      | some (false, fs') ↦
          some (
            some delete_box_failed,
            set_box i (record box { mutex = true }) (record s { fs = fs' }),
          )
      | some (true, fs') ↦
          some
            (none, set_box i (record box { mutex = false; used = false }) (record s { fs = fs' }))
    ]

-- A box whose mutex is held blocks the caller, `none`.
unfoldable pub delete_at : ℕ → Broker → Option (Option RespErr × Broker)
delete_at i s = if (s.mbroker_boxes i).mutex then none else remove_at i s

unfoldable pub delete_box : Name → Broker → Option (Option RespErr × Broker)
delete_box name s = elim (get_box name s) [
  | none ↦ some (some unknown_box, s)
  | some i ↦ delete_at i s
]

abbrev pub is_count : Option ℕ → ℕ → Bool
is_count none n = false
is_count (some r) n = r == n

-- The message, and the zero that ends it in the file.
unfoldable pub write_message : Option ℕ → Name → M (Option ℕ)
write_message fd message = do
  ret ← tfs_write fd (char_at message) (length message)
  branch (is_count ret (length message))
      (do last ← tfs_write fd (λ k. 0) 1; on_index last (pure none) (λ n. pure ret)) (pure none)

-- What follows the read of one byte.
unfoldable pub read_on : M (Option (List ℕ)) → Option ℕ × List ℕ → M (Option (List ℕ))
read_on rest (ret, []) = pure none
read_on rest (ret, c ∷ cs) =
    branch (is_count ret 1)
      (branch (c == 0) (pure (some (c ∷ [])))
        (do more ← rest; pure (elim more [ none ↦ none | some m ↦ some (c ∷ m) ])))
      (pure none)

-- The characters up to the zero, it included; `none` after a bad read. The fuel bounds the number
-- of reads.
unfoldable pub read_message : ℕ → Option ℕ → M (Option (List ℕ))
read_message zero fd = abort
read_message (suc fuel) fd = do r ← tfs_read fd 1; read_on (read_message fuel fd) r
