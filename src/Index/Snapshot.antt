-- ===== src/Index/Snapshot.antt =====
-- include/coredesk/index/IndexSnapshot.h and include/coredesk/filesystem/FileRecord.h. A path is its
-- generic UTF-8 text; a hash map is the list of its entries.
use core_desk.Base.{ℕ, if◌then◌else◌, List, [], ◌∷◌, Option, none, some}
use core_desk.Base.Eq.{Eq}
use core_desk.Common.{Text}

pub data EntryType : Type 0 where
  regular_file directory symlink other : EntryType

pub record FileRecord : Type 0 where
  pub id : ℕ
  pub absolute_path : Text
  pub relative_path : Text
  pub file_name : Text
  pub extension : Text
  pub size_bytes : ℕ
  pub modified_time : ℕ
  pub type : EntryType

pub record IndexSnapshot : Type 0 where
  pub generation : ℕ
  pub root : Text
  pub records : List FileRecord
  pub id_to_pos : List (ℕ × ℕ)
  -- Each posting list is sorted and has no duplicates.
  pub token_index : List (Text × List ℕ)
  pub sorted_tokens : List Text
  pub normalized_names : List Text

module _ {ℓ} {K V : Type ℓ} ⦃e : Eq K⦄ where
  -- `map.find(key)`.
  abbrev pub find : K → List (K × V) → Option V
  find key [] = none
  find key ((k, v) ∷ rest) = if e.beq k key then some v else find key rest
