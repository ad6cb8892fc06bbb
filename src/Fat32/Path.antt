-- ===== src/Fat32/Path.antt =====
-- Paths in src/driver/fs/FAT32.c: `get_file` and `fat32_open`. A path is the list of its characters
-- without the 0 at its end, and has one at least; the pointers are not NULL. `fat32_open` is on a volume that is
-- initialised, so that `fat_init_root_dir_iterator` succeeds.
use open_gpos.Base.{
  ℕ, zero, suc, ◌+◌, ◌-◌, Bool, true, false, not, ◌&&◌, Option, none, some, List, [], ◌∷◌, get_or,
  drop, length, ltb, ◌==◌, if◌then◌else◌,
}
use open_gpos.Str.{strcmp}
use open_gpos.Fat32.Volume.{VolumeInfo}
use open_gpos.Fat32.Device.{Device}
use open_gpos.Fat32.Chain.{FatError, no_more_entries, file_not_found, not_initialized}
use open_gpos.Fat32.Handles.{FileHandle, open_handle}
use open_gpos.Fat32.Dir.{
  DirIterator, FileInfo, LongName, DirResult, found, stopped, out_of_fuel, max_filename_len,
  fat_init_root_dir_iterator, fat_read_next_dir_entry,
}

-- The loop that copies a component into `name_buffer`: the characters in front of the next `/`, with
-- `room` for more, and the path from the `/` on.
unfoldable pub component_loop : ℕ → List ℕ → List ℕ × List ℕ
component_loop room [] = ([], [])
component_loop room (c ∷ path) =
    let (name, rest) = component_loop (room - 1) path in
    if c == 0x2f then ([], c ∷ path) else (if room == 0 then name else c ∷ name, rest)

-- a round of `get_file` behind that loop: the component, the path behind its `/`, whether it is last
pub record Component : Type 0 where
  pub name_buffer : List ℕ
  pub path : List ℕ
  pub final_path_component : Bool

unfoldable pub behind_slash : List ℕ × List ℕ → Component
behind_slash (name, []) = record { name_buffer = name; path = []; final_path_component = true }
behind_slash (name, c ∷ path) = record {
  name_buffer = name;
  path = path;
  final_path_component = false;
}

unfoldable pub next_component : List ℕ → Component
unfolding behind_slash
next_component path = behind_slash (component_loop (max_filename_len - 1) path)

-- Two strings in memory, the first at 0 and the second at 1024.
abbrev pub two_strings : List ℕ → List ℕ → ℕ → ℕ
two_strings a b p = if ltb p 1024 then get_or a p 0 else get_or b (p - 1024) 0

unfoldable pub is_zero : Option ℕ → Bool
is_zero none = false
is_zero (some r) = r == 0

-- `strcmp(name_buffer, current_entry.filename) == 0`; a name has fewer than 256 characters.
unfoldable pub same_name : List ℕ → List ℕ → Bool
unfolding is_zero
same_name name filename = is_zero (strcmp max_filename_len (two_strings name filename) 0 1024)

-- What the search for a component comes to: the file or the code that `get_file` returns, or an
-- iterator on the directory that the component names.
pub data Search : Type 0 where
  got : FileInfo → Search
  fails : FatError → Search
  enters : DirIterator → Search
  no_fuel : Search

unfoldable pub search_end : FatError → Search
search_end no_more_entries = fails file_not_found
search_end e = fails e

module _ {S : Type 0} (dev : Device S) (fresh : LongName → LongName) (slot : LongName) where
  -- the body of the loop for what `fat_read_next_dir_entry` returns, `again` being the loop
  unfoldable pub examine :
      (DirIterator → S → Search × S) → List ℕ → Bool → DirResult × S → Search × S
  unfolding search_end
  examine again name final (found info it, s) =
      if not (same_name name info.filename)
      then again it s
      else if info.is_directory && not final
      then (enters (fat_init_root_dir_iterator info.first_cluster), s)
      else if final && not info.is_directory
      then (got info, s)
      else if final && info.is_directory
      then (fails file_not_found, s)
      else again it s
  examine again name final (stopped e it, s) = (search_end e, s)
  examine again name final (out_of_fuel, s) = (no_fuel, s)

  -- the `do … while` loop of `get_file`
  unfoldable pub search_loop : ℕ → ℕ → VolumeInfo → List ℕ → Bool → DirIterator → S → Search × S
  unfolding examine
  search_loop zero entries v name final it s = (no_fuel, s)
  search_loop (suc fuel) entries v name final it s =
      examine (λ it' s'. search_loop fuel entries v name final it' s') name final
        (fat_read_next_dir_entry dev fresh entries v it slot s)

  -- the outer loop behind the search for a component
  unfoldable pub descend : (DirIterator → S → Search × S) → Search × S → Search × S
  descend again (got info, s) = (got info, s)
  descend again (fails e, s) = (fails e, s)
  descend again (enters it, s) = again it s
  descend again (no_fuel, s) = (no_fuel, s)

  -- The outer loop of `get_file`. Each round but the last takes a character of the path.
  unfoldable pub path_loop : ℕ → ℕ → VolumeInfo → List ℕ → DirIterator → S → Search × S
  unfolding descend
  path_loop zero entries v path it s = (no_fuel, s)
  path_loop (suc fuel) entries v path it s =
      let c = next_component path in
      let again = λ (it' : DirIterator) (s' : S). path_loop fuel entries v c.path it' s' in
      if (length c.name_buffer == 0) && not c.final_path_component
      then again it s
      else descend again (search_loop entries entries v c.name_buffer c.final_path_component it s)

  -- `get_file`; the fuel `entries` is for the entries of a directory
  unfoldable pub get_file : ℕ → VolumeInfo → List ℕ → S → Search × S
  get_file entries v path s =
      if not v.is_initialized
      then (fails not_initialized, s)
      else path_loop (length path + 1) entries v (drop 1 path)
          (fat_init_root_dir_iterator v.root_dir_cluster) s

  -- `fat32_open` behind `get_file`: the number of the handle and the table, if it does not fail
  unfoldable pub open_found : List FileHandle → ℕ → Search × S → Option (ℕ × List FileHandle) × S
  open_found handles mode (got info, s) =
      (open_handle handles info.first_cluster info.file_size mode, s)
  open_found handles mode (fails e, s) = (none, s)
  open_found handles mode (enters it, s) = (none, s)
  open_found handles mode (no_fuel, s) = (none, s)

  -- `fat32_open`
  unfoldable pub fat32_open :
      ℕ → VolumeInfo → List FileHandle → List ℕ → ℕ → S → Option (ℕ × List FileHandle) × S
  unfolding open_found
  fat32_open entries v handles path mode s = open_found handles mode (get_file entries v path s)
