-- ===== src/Broker/Steps.antt =====
-- The steps of mbroker/mbroker.c on a box and on the file system, as equations.
use so_project.Base.{
  ℕ, ◌≡◌, refl, ap, ◌∙◌, fun_ext, true, false, Option, none, some, update_self, length, lt→ltb, ◌<◌,
  arith,
}
use so_project.Base.Monad.{pure, ◌>>=◌, reads, modify, abort, branch, Ends, ends}
use so_project.Tfs.Types.{M, Fs}
use so_project.Broker.Boxes.{Box, Broker, set_box}
use so_project.Broker.Access.{on_fs, read_name, modify_box, lock_box, unlock_box}

-- A call of the file system leaves the boxes.
pub data Lifted {A : Type 0} (P : A → Fs → Type 0) (s : Broker) (a : A) (s' : Broker) : Type 0 where
  on_the_fs : (fs' : Fs) → s' ≡ record s { fs = fs' } → P a fs' → Lifted P s a s'

on_fs-Ends :
    {A : Type 0} {P : A → Fs → Type 0} (o : Option (A × Fs)) (s : Broker)
    → Ends P o
    → Ends (Lifted P s) (elim o [ none ↦ none | some (a, fs') ↦ some (a, record s { fs = fs' }) ])
on_fs-Ends o s (ends a fs' p) = ends a (record s { fs = fs' }) (on_the_fs fs' refl p)

pub on_fs-Lifted :
    {A : Type 0} {P : A → Fs → Type 0} (m : M A) (s : Broker)
    → Ends P (m s.fs)
    → Ends (Lifted P s) (on_fs m s)
unfolding on_fs
on_fs-Lifted m s h = on_fs-Ends (m s.fs) s h

-- The last value stored is the box.
set_box-again : (i : ℕ) (a c : Box) (s : Broker) → set_box i c (set_box i a s) ≡ set_box i c s
set_box-again i a c s =
    ap (λ (f : ℕ → Box). record s { mbroker_boxes = f }) (fun_ext λ j. ground arith)

pub lock_box-eq :
    (i : ℕ) (s : Broker)
    → (s.mbroker_boxes i).mutex ≡ false
    → lock_box i s ≡ some (tt, set_box i (record (s.mbroker_boxes i) { mutex = true }) s)
unfolding lock_box modify_box ◌>>=◌ reads branch abort modify
lock_box-eq i s h = rw h

pub read_name-eq :
    (i : ℕ) (box : Box) (s : Broker)
    → length box.name < 32
    → read_name i (set_box i box s) ≡ some (box.name, set_box i box s)
unfolding read_name ◌>>=◌ reads branch abort pure
read_name-eq i box s h = rw (update_self s.mbroker_boxes i box, lt→ltb _ _ h) refl

pub modify_box-eq :
    (i : ℕ) (f : Box → Box) (box : Box) (s : Broker)
    → modify_box i f (set_box i box s) ≡ some (tt, set_box i (f box) s)
unfolding modify_box modify
modify_box-eq i f box s =
    ap (λ t. some (tt, t))
      (ap (λ a. set_box i (f a) (set_box i box s)) (update_self s.mbroker_boxes i box)
        ∙ set_box-again i box (f box) s)

pub unlock_box-eq :
    (i : ℕ) (box : Box) (s : Broker)
    → unlock_box i (set_box i box s) ≡ some (tt, set_box i (record box { mutex = false }) s)
unfolding unlock_box
unlock_box-eq i box s = modify_box-eq i (λ a. record a { mutex = false }) box s
