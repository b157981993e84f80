-- ===== src/Broker/Creation.antt =====
-- Creating boxes: `create_box` of mbroker/box.c.
use so_project.Base.{ℕ, ◌<◌, ◌≡◌, ◌∷◌, ◌≢◌, true, false, Option, none, some, Name, str_eq, length}
use so_project.Tfs.Types.{DirEntry, Fs, max_dir_entries}
use so_project.Tfs.Operations.{base_name}
use so_project.Tfs.Valid.{IsValid}
use so_project.Tfs.Directory.{find_name}
use so_project.Broker.Boxes.{box_count_max, Box, Broker, RespErr, duplicate_box, get_box}

-- The file system after `create_file`: valid, with the file of the name when it succeeds.
record FileMade (b : ℕ) (e : ℕ → DirEntry) (name : Name) (s : Fs) (r : Option ℕ) (s' : Fs)
    : Type 0 where
  entries_after : ℕ → DirEntry
  valid : IsValid b entries_after s'
  made :
      (h : ℕ)
      → r ≡ some h
      → find_name entries_after (max_dir_entries s) (base_name (some name)) ≢ none
  others :
      (other : Name)
      → str_eq (base_name (some name)) other ≡ false
      → find_name entries_after (max_dir_entries s) other ≡ find_name e (max_dir_entries s) other

-- The box that `box_initialize` makes.
abbrev new_box : Name → Box
new_box name = record {
  name = b'/' ∷ name;
  n_publishers = 0;
  n_subscribers = 0;
  size = 0;
  mutex = false;
  used = true;
}

-- Every box in use has a name that ends in its array.
abbrev pub AreNamed : (ℕ → Box) → Type 0
AreNamed boxes = (i : ℕ) → (boxes i).used ≡ true → length (boxes i).name < 32

-- What `create_box` leaves.
pub record Created (b : ℕ) (e : ℕ → DirEntry) (name : Name) (s : Broker) (r : Option RespErr)
    (s' : Broker) : Type 0 where
  pub entries_after : ℕ → DirEntry
  pub valid : IsValid b entries_after s'.fs
  pub duplicate : (i : ℕ) → get_box name s ≡ some i → (r ≡ some duplicate_box) × (s' ≡ s)
  pub has_file : r ≡ none → find_name entries_after (max_dir_entries s.fs) name ≢ none
  pub has_box :
      (i : ℕ)
      → i < box_count_max
      → (s.mbroker_boxes i).used ≡ false
      → r ≡ none
      → get_box name s' ≢ none
  pub named : AreNamed s.mbroker_boxes → AreNamed s'.mbroker_boxes
  pub failed : (err : RespErr) → r ≡ some err → s'.mbroker_boxes ≡ s.mbroker_boxes
  pub others :
      (other : Name)
      → str_eq name other ≡ false
      → find_name entries_after (max_dir_entries s.fs) other
        ≡ find_name e (max_dir_entries s.fs) other
