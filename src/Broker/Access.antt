-- ===== src/Broker/Access.antt =====
-- What the sessions with publishers and subscribers in mbroker/mbroker.c do to a box: its mutex, its
-- counters, and the calls of the file system, as steps on the broker.
use so_project.Base.{ℕ, true, false, none, some, Name, length, ltb}
use so_project.Base.Monad.{StateM, pure, ◌>>=◌, reads, modify, abort, branch}
use so_project.Tfs.Types.{M}
use so_project.Protocol.Requests.{box_name_length}
use so_project.Broker.Boxes.{Box, Broker, set_box}

-- A function over the boxes and the file system.
abbrev pub B : Type 0 → Type 0
B A = StateM Broker A

-- A call of the file system.
unfoldable pub on_fs : {A : Type 0} → M A → B A
on_fs m s = elim (m s.fs) [ none ↦ none | some (a, fs') ↦ some (a, record s { fs = fs' }) ]

unfoldable pub modify_box : ℕ → (Box → Box) → B (Unit {0})
modify_box i f = modify (λ s. set_box i (f (s.mbroker_boxes i)) s)

-- `box->name`. The count of publishers comes after the array: a string that does not end in the array
-- goes on in the count, which is taken to be undefined, `none`.
unfoldable pub read_name : ℕ → B Name
read_name i = do
  name ← reads (λ s. (s.mbroker_boxes i).name)
  branch (ltb (length name) box_name_length) (pure name) abort

-- `mutex_lock(&box->mutex)`: a mutex that is held blocks the caller, `none`.
unfoldable pub lock_box : ℕ → B (Unit {0})
lock_box i = do
  held ← reads (λ s. (s.mbroker_boxes i).mutex)
  branch held abort (modify_box i (λ box. record box { mutex = true }))

unfoldable pub unlock_box : ℕ → B (Unit {0})
unlock_box i = modify_box i (λ box. record box { mutex = false })
