-- ===== src/Broker/Init.antt =====
-- `init_mbroker` of mbroker/mbroker.c: the broker that the sessions start from.
use so_project.Base.{ℕ, ◌≤◌, ◌≡◌, refl, Bool, true, false, Option, none, some, Name, arith}
use so_project.Tfs.Types.{Inode, AllocationState, free, OpenFileEntry, TfsParams, max_dir_entries}
use so_project.Tfs.State.{Malloc, Memory, uninitialized, initialized}
use so_project.Tfs.Operations.{tfs_default_params, tfs_init}
use so_project.Tfs.Valid.{IsValid}
use so_project.Tfs.Directory.{find_name}
use so_project.Tfs.Init.{first_entries, tfs_init-IsValid}
use so_project.Broker.Boxes.{box_count_max, Box, Broker}

-- The default parameters, with an inode for each box.
abbrev pub mbroker_params : TfsParams
mbroker_params = record tfs_default_params { max_inode_count = box_count_max }

-- `alloc_state = NOT_USED`, and a fresh mutex; the rest is what `malloc` gave.
abbrev pub unused_box : Box → Box
unused_box box = record box { mutex = false; used = false }

-- The broker after the initialization, for the tables of the file system and the boxes that `malloc`
-- returns. `none` is PANIC, or a null pointer for the boxes, which is not tested. The handlers of
-- signals are left out.
abbrev start_broker : Option (ℕ → Box) → Bool × Memory → Option Broker
start_broker (some boxes) (true, initialized s) =
    some (record { mbroker_boxes = λ i. unused_box (boxes i); fs = s })
start_broker boxes r = none

unfoldable pub init_mbroker : Malloc → Memory → Option (ℕ → Box) → Option Broker
init_mbroker malloc memory boxes = elim (tfs_init (some mbroker_params) malloc memory) [
  | none ↦ none
  | some r ↦ start_broker boxes r
]

-- When every `malloc` succeeds and the first block is zero, `init_mbroker` succeeds: the file system
-- is valid and holds no file, and no box is used or has its mutex held. The tables' states are
-- given as free beyond the end of the tables, where there is no element.
pub init_mbroker_lem :
    (inodes : ℕ → Inode) (fi : ℕ → AllocationState) (blocks : ℕ → ℕ → ℕ) (fb : ℕ → AllocationState)
    (files : ℕ → OpenFileEntry) (fo : ℕ → AllocationState) (boxes : ℕ → Box)
    → ((k : ℕ) → blocks 0 k ≡ 0)
    → ((i : ℕ) → 1024 ≤ i → fi i ≡ free)
    → ((h : ℕ) → 16 ≤ h → fo h ≡ free)
    → (s : Broker) × (init_mbroker
          (record {
            inodes = some inodes;
            inode_states = some fi;
            blocks = some blocks;
            block_states = some fb;
            open_files = some files;
            open_states = some fo;
          })
          uninitialized
          (some boxes)
        ≡ some s)
      × IsValid 0 (first_entries blocks) s.fs
      × ((name : Name) → find_name (first_entries blocks) (max_dir_entries s.fs) name ≡ none)
      × ((i : ℕ) → ((s.mbroker_boxes i).used ≡ false) × ((s.mbroker_boxes i).mutex ≡ false))
unfolding init_mbroker
init_mbroker_lem inodes fi blocks fb files fo boxes zeros no_inode no_file =
    let (s, run, v, same, no_names, closed) =
      tfs_init-IsValid mbroker_params inodes fi blocks fb files fo (omega arith) refl (omega arith)
        (omega arith) zeros no_inode no_file in
    (
      record { mbroker_boxes = λ i. unused_box (boxes i); fs = s },
      rw (run, init_mbroker) refl,
      v,
      no_names,
      λ i. (refl, refl),
    )
