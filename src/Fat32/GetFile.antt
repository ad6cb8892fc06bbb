-- ===== src/Fat32/GetFile.antt =====
-- `get_file` and `fat32_open` of src/driver/fs/FAT32.c against `Resolves`.
use open_gpos.Base.{
  ℕ, zero, suc, ◌+◌, ◌-◌, ◌≤◌, ◌<◌, length-drop, ◌^◌, ◌≢◌, set, take, min, get_elem?, Bool, true,
  false, not, ◌&&◌, List, [], ◌∷◌, ◌≡◌, refl, sym, ap, ◌∙◌, arith, length, subst, ◌==◌, drop, some,
  Bool-cases, inl, inr, get_elem?-some, get_elem?-set_self,
}
use open_gpos.Fat32.Device.{Device, Serves}
use open_gpos.Fat32.Volume.{VolumeInfo}
use open_gpos.Fat32.Stream.{IsMounted, IsChain, chain_bytes}
use open_gpos.Fat32.Handles.{FileHandle, open_handle, free_handle, fat32_read, fat32_get_size}
use open_gpos.Fat32.Open.{opened_handle, open_handle-fat32_read}
use open_gpos.Fat32.Dir.{FileInfo, LongName, fat_init_root_dir_iterator}
use open_gpos.Fat32.Listing.{chain_entries}
use open_gpos.Fat32.Path.{
  component_loop, behind_slash, next_component, search_loop, descend, path_loop, get_file,
  open_found, fat32_open,
}
use open_gpos.Fat32.Lookup.{
  Outcome, is_file, is_dir, missing, Finds, Resolves, slashes, into, at_end, absent, search_of,
  fat_init_root_dir_iterator-Lists,
}
use open_gpos.Fat32.Get.{search_loop-Finds}

length-component_loop :
    (room : ℕ) (path : List ℕ) → length (component_loop room path).1 ≤ length path
unfolding component_loop
length-component_loop room [] = omega arith
length-component_loop room (c ∷ path) =
    let shorter = length-component_loop (room - 1) path in
    elim (Bool-cases (c == 0x2f)) [ inl e ↦ rw e (omega arith) | inr e ↦ rw e (omega arith) ]

length-behind_slash :
    (path : List ℕ) (p : List ℕ × List ℕ)
    → length p.1 ≤ length path
    → (behind_slash p).final_path_component ≡ false
    → length (behind_slash p).path < length path
unfolding behind_slash
length-behind_slash path (name, []) shorter more = cc
length-behind_slash path (name, c ∷ rest) shorter more = omega arith

length-next_component :
    (path : List ℕ)
    → (next_component path).final_path_component ≡ false
    → length (next_component path).path < length path
unfolding next_component
length-next_component path =
    length-behind_slash path (component_loop 255 path) (length-component_loop 255 path)

and-false : (b : Bool) → (b && false) ≡ false
and-false true = refl
and-false false = refl

module _ {S : Type 0} (dev : Device S) (v : VolumeInfo) (disk : ℕ → ℕ → ℕ) (Live : S → Type 0)
    (fresh : LongName → LongName) (slot : LongName) (entries : ℕ) where
  search-component :
      (cluster : ℕ) (rest path : List ℕ) (o : Outcome) (s : S)
      → Serves dev disk Live
      → IsMounted v
      → Live s
      → IsChain v disk cluster rest
      → length (chain_entries v disk cluster 0 rest) < entries
      → Finds fresh slot
          (next_component path).name_buffer
          (next_component path).final_path_component
          (chain_entries v disk cluster 0 rest)
          o
      → let r =
          search_loop dev fresh slot entries entries v
            (next_component path).name_buffer
            (next_component path).final_path_component
            (fat_init_root_dir_iterator cluster)
            s in
        (r.0 ≡ search_of o) × Live r.1
  unfolding fat_init_root_dir_iterator
  search-component cluster rest path o s serves m live chain enough finds =
      search_loop-Finds dev v disk Live fresh slot entries entries _ _
        (fat_init_root_dir_iterator cluster) (chain_entries v disk cluster 0 rest) o s serves m live
        (fat_init_root_dir_iterator-Lists v disk cluster rest chain) refl enough enough finds

  path_loop-Resolves :
      (fuel cluster : ℕ) (path : List ℕ) (o : Outcome) (s : S)
      → Serves dev disk Live
      → IsMounted v
      → Live s
      → length path < fuel
      → Resolves v disk fresh slot entries cluster path o
      → let r =
          path_loop dev fresh slot fuel entries v path (fat_init_root_dir_iterator cluster) s in
        (r.0 ≡ search_of o) × Live r.1
  unfolding path_loop search_of
  path_loop-Resolves zero cluster path o s serves m live enough resolves = absurd (omega arith)
  path_loop-Resolves (suc fuel) cluster path o s serves m live enough
        (slashes empty more resolves) =
      let shorter = length-next_component path more in
      simp (empty, more)
        (path_loop-Resolves fuel cluster (next_component path).path o s serves m live (omega arith)
          resolves)
  path_loop-Resolves (suc fuel) cluster path o s serves m live enough
        (into {info = info} rest named more chain small finds resolves) =
      let shorter = length-next_component path more in
      let (e, live') =
        search-component cluster rest path (is_dir info) s serves m live chain small (
          subst
            (λ f.
              Finds fresh slot (next_component path).name_buffer f
                (chain_entries v disk cluster 0 rest) (is_dir info))
            (sym more) finds) in
      let skipped : ((length (next_component path).name_buffer == 0)
            && not (next_component path).final_path_component)
          ≡ false =
        ap (λ b. b && not (next_component path).final_path_component) named in
      rw skipped (
        rw (e, descend)
          (path_loop-Resolves fuel info.first_cluster (next_component path).path o _ serves m live'
            (omega arith) resolves))
  path_loop-Resolves (suc fuel) cluster path (is_file info) s serves m live enough
        (at_end rest final chain small finds) =
      let (e, live') =
        search-component cluster rest path (is_file info) s serves m live chain small (
          subst
            (λ f.
              Finds fresh slot (next_component path).name_buffer f
                (chain_entries v disk cluster 0 rest) (is_file info))
            (sym final) finds) in
      let skipped : ((length (next_component path).name_buffer == 0)
            && not (next_component path).final_path_component)
          ≡ false =
        ap (λ f. (length (next_component path).name_buffer == 0) && not f) final ∙ and-false _ in
      rw skipped (rw (e, descend) (refl, live'))
  path_loop-Resolves (suc fuel) cluster path (missing e) s serves m live enough
        (absent rest named chain small finds) =
      let (r, live') =
        search-component cluster rest path (missing e) s serves m live chain small finds in
      rw named (rw (r, descend) (refl, live'))

-- `get_file`, on a card that serves its reads, for a volume that is mounted: where the path behind
-- its first character resolves from the cluster of the root directory, it returns the file found
-- there, or the code of the directory that has none. It never runs out of fuel.
pub get_file-Resolves :
    {S : Type 0} (dev : Device S) (v : VolumeInfo) (disk : ℕ → ℕ → ℕ) (Live : S → Type 0)
    (fresh : LongName → LongName) (slot : LongName) (entries : ℕ) (path : List ℕ) (o : Outcome)
    (s : S)
    → Serves dev disk Live
    → IsMounted v
    → Live s
    → Resolves v disk fresh slot entries v.root_dir_cluster (drop 1 path) o
    → let r = get_file dev fresh slot entries v path s in (r.0 ≡ search_of o) × Live r.1
unfolding get_file
get_file-Resolves dev v disk Live fresh slot entries path o s serves m live resolves =
    let size = length-drop 1 path in
    simp m.ready (
      path_loop-Resolves dev v disk Live fresh slot entries (length path + 1) v.root_dir_cluster
        (drop 1 path) o s serves m live (omega arith) resolves)

-- `fat32_open` and then `fat32_read`, on a card that serves its reads, for a mounted volume, where the
-- path behind its first character resolves to a file whose clusters hold its size, less than 2^31,
-- and the first free handle has the number `file_id`: the handle is opened with the size, the others
-- are kept, and a read of less than 2^31 bytes through it gives the first bytes of the file, as many
-- as were asked for and it has.
pub fat32_open-fat32_read :
    {S : Type 0} (dev : Device S) (v : VolumeInfo) (disk : ℕ → ℕ → ℕ) (Live : S → Type 0)
    (fresh : LongName → LongName) (slot : LongName) (entries : ℕ) (handles : List FileHandle)
    (path : List ℕ) (info : FileInfo) (rest : List ℕ) (mode asked file_id j : ℕ) (s : S)
    → Serves dev disk Live
    → IsMounted v
    → Live s
    → Resolves v disk fresh slot entries v.root_dir_cluster (drop 1 path) (is_file info)
    → IsChain v disk info.first_cluster rest
    → info.file_size ≤ length (chain_bytes v disk info.first_cluster 0 rest)
    → info.file_size < 2 ^ 31
    → asked < 2 ^ 31
    → free_handle handles 0 ≡ some file_id
    → file_id ≢ j
    → let (result, s') = fat32_open dev fresh slot entries v handles path mode s in
      (opened : List FileHandle) × (result ≡ some (file_id, opened))
      × (get_elem? opened j ≡ get_elem? handles j)
      × (fat32_get_size opened file_id ≡ info.file_size)
      × ((left : List FileHandle) × ((fat32_read dev v opened file_id asked s').0
            ≡ some (record {
              ok = true;
              bytes =
                  take (min asked info.file_size) (chain_bytes v disk info.first_cluster 0 rest);
              handles = left;
            })))
unfolding fat32_open search_of open_handle fat32_get_size
fat32_open-fat32_read dev v disk Live fresh slot entries handles path info rest mode asked file_id j
      s serves m live resolves chain long small few free ne =
    let (e, live') =
      get_file-Resolves dev v disk Live fresh slot entries path (is_file info) s serves m live
        resolves in
    let h : FileHandle = opened_handle info.first_cluster info.file_size mode in
    let opens : open_handle handles info.first_cluster info.file_size mode
        ≡ some (file_id, set handles file_id h) =
      rw (free, open_handle) refl in
    let (kept, was_free, reads) =
      open_handle-fat32_read dev v disk Live handles (set handles file_id h) file_id
        info.first_cluster info.file_size mode asked j rest
        (get_file dev fresh slot entries v path s).1 ne serves m live' opens chain long small few in
    let (old, there, is_free) = was_free in
    let inside = get_elem?-some handles file_id old there in
    let sized : fat32_get_size (set handles file_id h) file_id ≡ info.file_size =
      rw (get_elem?-set_self handles file_id h inside, fat32_get_size) refl in
    (set handles file_id h, rw (e, open_found) opens, kept, sized, rw (e, open_found) reads)
