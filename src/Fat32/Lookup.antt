-- ===== src/Fat32/Lookup.antt =====
-- Which file a path names on the disk, and that `get_file` of src/driver/fs/FAT32.c finds it.
use open_gpos.Base.{
  ℕ, suc, ◌<◌, Bool, true, false, not, ◌&&◌, List, [], ◌∷◌, ◌≡◌, refl, ap, arith, length, ◌==◌,
}
use open_gpos.Fat32.Volume.{VolumeInfo}
use open_gpos.Fat32.Chain.{FatError, no_more_entries, file_not_found}
use open_gpos.Fat32.Stream.{IsChain}
use open_gpos.Fat32.Dir.{
  FileInfo, LongName, Action, last, skip, file, fat_init_root_dir_iterator, entry_action,
}
use open_gpos.Fat32.Listing.{Lists, chain_entries, pending}
use open_gpos.Fat32.Scan.{Scanned, hands, ends, scan, scan_action}
use open_gpos.Fat32.Path.{next_component, same_name, Search, got, fails, enters}

-- What a component comes to in a directory.
pub data Outcome : Type 0 where
  is_file : FileInfo → Outcome
  is_dir : FileInfo → Outcome
  missing : FatError → Outcome

-- the code of a directory's end
unfoldable pub dir_error : FatError → FatError
dir_error no_more_entries = file_not_found
dir_error e = e

-- In the directory of the entries, the name comes to the outcome: the first file of that name that
-- is a directory where the path goes on and none where it ends. A directory where the path ends is
-- not found; a file where it goes on is passed over.
pub data Finds (fresh : LongName → LongName) (slot : LongName) (name : List ℕ) (final : Bool)
    : List (List ℕ) → Outcome → Type 0 where
  file_hit :
      {raws rs : List (List ℕ)} {info : FileInfo}
      → scan fresh 0 slot raws ≡ hands info rs
      → same_name name info.filename ≡ true
      → info.is_directory ≡ false
      → final ≡ true
      → Finds fresh slot name final raws (is_file info)
  dir_hit :
      {raws rs : List (List ℕ)} {info : FileInfo}
      → scan fresh 0 slot raws ≡ hands info rs
      → same_name name info.filename ≡ true
      → info.is_directory ≡ true
      → final ≡ false
      → Finds fresh slot name final raws (is_dir info)
  dir_last :
      {raws rs : List (List ℕ)} {info : FileInfo}
      → scan fresh 0 slot raws ≡ hands info rs
      → same_name name info.filename ≡ true
      → info.is_directory ≡ true
      → final ≡ true
      → Finds fresh slot name final raws (missing file_not_found)
  other_name :
      {raws rs : List (List ℕ)} {info : FileInfo} {o : Outcome}
      → scan fresh 0 slot raws ≡ hands info rs
      → same_name name info.filename ≡ false
      → Finds fresh slot name final rs o
      → Finds fresh slot name final raws o
  no_dir :
      {raws rs : List (List ℕ)} {info : FileInfo} {o : Outcome}
      → scan fresh 0 slot raws ≡ hands info rs
      → same_name name info.filename ≡ true
      → info.is_directory ≡ false
      → final ≡ false
      → Finds fresh slot name final rs o
      → Finds fresh slot name final raws o
  over :
      {raws : List (List ℕ)} {e : FatError}
      → scan fresh 0 slot raws ≡ ends e
      → Finds fresh slot name final raws (missing (dir_error e))

-- The path from a directory's cluster on comes to the outcome. Each directory on the way has fewer
-- than `entries` entries.
pub data Resolves (v : VolumeInfo) (disk : ℕ → ℕ → ℕ) (fresh : LongName → LongName)
    (slot : LongName) (entries : ℕ) : ℕ → List ℕ → Outcome → Type 0 where
  slashes :
      {cluster : ℕ} {path : List ℕ} {o : Outcome}
      → length (next_component path).name_buffer ≡ 0
      → (next_component path).final_path_component ≡ false
      → Resolves v disk fresh slot entries cluster (next_component path).path o
      → Resolves v disk fresh slot entries cluster path o
  into :
      {cluster : ℕ} {path : List ℕ} {info : FileInfo} {o : Outcome} (rest : List ℕ)
      → (length (next_component path).name_buffer == 0) ≡ false
      → (next_component path).final_path_component ≡ false
      → IsChain v disk cluster rest
      → length (chain_entries v disk cluster 0 rest) < entries
      → Finds fresh slot
          (next_component path).name_buffer
          false
          (chain_entries v disk cluster 0 rest)
          (is_dir info)
      → Resolves v disk fresh slot entries info.first_cluster (next_component path).path o
      → Resolves v disk fresh slot entries cluster path o
  at_end :
      {cluster : ℕ} {path : List ℕ} {info : FileInfo} (rest : List ℕ)
      → (next_component path).final_path_component ≡ true
      → IsChain v disk cluster rest
      → length (chain_entries v disk cluster 0 rest) < entries
      → Finds fresh slot
          (next_component path).name_buffer
          true
          (chain_entries v disk cluster 0 rest)
          (is_file info)
      → Resolves v disk fresh slot entries cluster path (is_file info)
  absent :
      {cluster : ℕ} {path : List ℕ} {e : FatError} (rest : List ℕ)
      → ((length (next_component path).name_buffer == 0)
          && not (next_component path).final_path_component)
        ≡ false
      → IsChain v disk cluster rest
      → length (chain_entries v disk cluster 0 rest) < entries
      → Finds fresh slot
          (next_component path).name_buffer
          (next_component path).final_path_component
          (chain_entries v disk cluster 0 rest)
          (missing e)
      → Resolves v disk fresh slot entries cluster path (missing e)

-- what `get_file` makes of an outcome
unfoldable pub search_of : Outcome → Search
search_of (is_file info) = got info
search_of (is_dir info) = enters (fat_init_root_dir_iterator info.first_cluster)
search_of (missing e) = fails e

scan_action-shorter :
    (again : ℕ → LongName → Scanned) (raws rs : List (List ℕ)) (info : FileInfo) (a : Action)
    → ((c : ℕ) (l : LongName) → again c l ≡ hands info rs → length rs < length raws)
    → scan_action again raws a ≡ hands info rs
    → length rs < suc (length raws)
unfolding scan_action
scan_action-shorter again raws rs info last ih e = cc
scan_action-shorter again raws rs info (skip c l) ih e = let shorter = ih c l e in omega arith
scan_action-shorter again raws rs info (file info') ih e =
    let same : raws ≡ rs = cc in let lengths = ap length same in omega arith

pub scan-shorter :
    (fresh : LongName → LongName) (c : ℕ) (l : LongName) (raws rs : List (List ℕ)) (info : FileInfo)
    → scan fresh c l raws ≡ hands info rs
    → length rs < length raws
unfolding scan
scan-shorter fresh c l [] rs info e = cc
scan-shorter fresh c l (raw ∷ raws) rs info e =
    scan_action-shorter (λ c' l'. scan fresh c' (fresh l') raws) raws rs info (entry_action raw c l)
      (λ c' l'. scan-shorter fresh c' (fresh l') raws rs info) e

pub fat_init_root_dir_iterator-Lists :
    (v : VolumeInfo) (disk : ℕ → ℕ → ℕ) (c : ℕ) (rest : List ℕ)
    → IsChain v disk c rest
    → Lists v disk (fat_init_root_dir_iterator c) (chain_entries v disk c 0 rest)
unfolding fat_init_root_dir_iterator pending
fat_init_root_dir_iterator-Lists v disk c rest chain = record {
  rest = rest;
  chain = chain;
  sector = omega arith;
  entry = omega arith;
  content = refl;
}
