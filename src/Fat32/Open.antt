-- ===== src/Fat32/Open.antt =====
-- The table of handles in src/driver/fs/FAT32.c: what `fat32_open` and `fat32_close` do to it.
use open_gpos.Base.{
  ℕ, suc, ◌+◌, ◌<◌, ◌≤◌, ◌^◌, true, false, none, some, List, [], ◌∷◌, ◌≡◌, ◌≢◌, refl, sym, ap, ◌∙◌,
  inl, inr, arith, Bool-cases, get_elem?, set, length, get_elem?-set_self, get_elem?-set_ne, take,
  min, Option-cases, ◌↔◌, get_elem?-some, get_elem?-none,
}
use open_gpos.Fat32.Device.{Device, Serves}
use open_gpos.Fat32.Volume.{VolumeInfo}
use open_gpos.Fat32.Stream.{IsChain, chain_bytes, IsMounted, Stands}
use open_gpos.Fat32.Handles.{
  FileHandle, free_handle, open_handle, fat32_close, fat32_read, read_open,
}
use open_gpos.Fat32.Read.{fat32_read-Reads}

-- `free_handle` finds the first free handle.
record IsFirstFree (handles : List FileHandle) (i : ℕ) : Type 0 where
  handle : FileHandle
  found : get_elem? handles i ≡ some handle
  free : handle.is_free ≡ true
  inside : i < length handles

free_handle-IsFirstFree :
    (handles : List FileHandle) (k i : ℕ)
    → free_handle handles k ≡ some i
    → (j : ℕ) × (i ≡ k + j) × IsFirstFree handles j
unfolding free_handle
free_handle-IsFirstFree [] k i e = cc
free_handle-IsFirstFree (h ∷ handles) k i e = elim (Bool-cases h.is_free) [
  | inl free ↦
      let e' : some k ≡ some i = simp free at e in
      let same : k ≡ i = cc in
      (0, omega arith, record { handle = h; found = refl; free = free; inside = omega arith })
  | inr used ↦
      let (j, place, f) = free_handle-IsFirstFree handles (k + 1) i (simp used at e) in
      (
        suc j,
        omega arith,
        record {
          handle = f.handle;
          found = f.found;
          free = f.free;
          inside = omega (arith, f.inside);
        },
      )
]

abbrev pub opened_handle : ℕ → ℕ → ℕ → FileHandle
opened_handle c file_size mode = record {
  cluster_start = c;
  current_cluster = c;
  current_offset = 0;
  file_size = file_size;
  current_file_pos = 0;
  is_free = false;
  mode = mode;
}

-- The second half of `fat32_open`, for a file whose first cluster is `c`, where the table has a free
-- handle: the number it gives was that of a free handle, another handle `j` is as before, and the
-- first `fat32_read` through it gives the first bytes of the chain from `c` on, as many as asked
-- for or as the file has. The card serves its reads, and the chain has at least `file_size` bytes,
-- fewer than 2 ^ 31.
pub open_handle-fat32_read :
    {S : Type 0} (dev : Device S) (v : VolumeInfo) (disk : ℕ → ℕ → ℕ) (Live : S → Type 0)
    (handles opened : List FileHandle) (file_id c file_size mode asked j : ℕ) (rest : List ℕ)
    (s : S)
    → file_id ≢ j
    → Serves dev disk Live
    → IsMounted v
    → Live s
    → open_handle handles c file_size mode ≡ some (file_id, opened)
    → IsChain v disk c rest
    → file_size ≤ length (chain_bytes v disk c 0 rest)
    → file_size < 2 ^ 31
    → asked < 2 ^ 31
    → (get_elem? opened j ≡ get_elem? handles j)
      × ((h : FileHandle) × (get_elem? handles file_id ≡ some h) × (h.is_free ≡ true))
      × ((left : List FileHandle) × ((fat32_read dev v opened file_id asked s).0
            ≡ some (record {
              ok = true;
              bytes = take (min asked file_size) (chain_bytes v disk c 0 rest);
              handles = left;
            })))
unfolding open_handle
open_handle-fat32_read dev v disk Live handles opened file_id c file_size mode asked j rest s ne
      serves m live e chain long small few =
    elim (Option-cases (free_handle handles 0)) [
      | inl no_handle ↦
          let e' : none ≡ some (file_id, opened) = rw (no_handle, open_handle) at e in cc
      | inr (i, found) ↦
          let h : FileHandle = opened_handle c file_size mode in
          let (j', place, f) = free_handle-IsFirstFree handles 0 i found in
          let e' : some (i, set handles i h) ≡ some (file_id, opened) =
            rw (found, open_handle) at e in
          let number : i ≡ file_id = cc in
          let table : set handles i h ≡ opened = cc in
          let here : j' ≡ file_id = omega arith in
          let free_there = rw here at f.found in
          let filled : get_elem? opened file_id ≡ some h =
            ap (λ t. get_elem? t file_id) (sym table)
            ∙ (rw number (get_elem?-set_self handles file_id h (omega (arith, f.inside)))) in
          let st : Stands v disk h (chain_bytes v disk c 0 rest) = record {
            rest = rest;
            chain = chain;
            place = inl (omega (arith, m.clusters, m.some_sectors));
            content = refl;
          } in
          let n = min asked file_size in
          let (reading, live') =
            fat32_read-Reads dev v disk Live opened file_id n asked h (chain_bytes v disk c 0 rest)
              s serves m live filled refl st (omega arith) small few (omega arith) (omega arith) in
          (
            ap (λ t. get_elem? t j) (sym table)
                ∙ (rw number (get_elem?-set_ne handles file_id j h ne)),
            (f.handle, free_there, f.free),
            (set opened file_id reading.0, reading.1),
          )
    ]

-- `fat32_close` succeeds exactly on the numbers that the table has and leaves another handle `j` as
-- it was; behind it `fat32_read` through the number fails, reads nothing and does not ask the card.
pub fat32_close-fat32_read :
    {S : Type 0} (dev : Device S) (v : VolumeInfo) (handles : List FileHandle) (file_id asked j : ℕ)
    (s : S)
    → file_id ≢ j
    → let (ok, closed) = fat32_close handles file_id in
      ((ok ≡ true) ↔ (file_id < length handles))
      × (get_elem? closed j ≡ get_elem? handles j)
      × (fat32_read dev v closed file_id asked s
          ≡ (some (record { ok = false; bytes = []; handles = closed }), s))
unfolding fat32_close fat32_read read_open
fat32_close-fat32_read dev v handles file_id asked j s ne =
    elim (Option-cases (get_elem? handles file_id)) [
      | inl missing ↦
          let size = get_elem?-none handles file_id missing in
          let run : fat32_close handles file_id ≡ (false, handles) =
            rw (missing, fat32_close) refl in
          rw run (((λ t. cc), (λ l. absurd (omega arith))), refl, rw missing refl)
      | inr (h, there) ↦
          let inside = get_elem?-some handles file_id h there in
          let closed : FileHandle = record h { is_free = true } in
          let run : fat32_close handles file_id ≡ (true, set handles file_id closed) =
            rw (there, fat32_close) refl in
          let here = get_elem?-set_self handles file_id closed inside in
          rw run (
            ((λ t. inside), (λ l. refl)),
            get_elem?-set_ne handles file_id j closed ne,
            rw here refl,
          )
    ]
