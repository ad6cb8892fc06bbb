-- ===== src/Fat32/Read.antt =====
-- Reads through a handle of src/driver/fs/FAT32.c: `fat32_read` gives the next bytes of the file's
-- cluster chain, whichever pieces a file is read in.
use open_gpos.Base.{
  ℕ, zero, suc, ◌+◌, ◌-◌, ◌%◌, ◌^◌, ◌<◌, ◌≤◌, true, false, some, List, [], ◌≡◌, inl, inr, refl, sym,
  ap, ◌∙◌, arith, Bool-cases, u16, u32, ltb, leb, ◌==◌, if◌then◌else◌, take, drop, length,
  length-drop, subst, drop-all, get_elem?, set, min,
}
use open_gpos.Fat32.Device.{Device, Serves, span}
use open_gpos.Fat32.Volume.{VolumeInfo}
use open_gpos.Fat32.Chain.{success}
use open_gpos.Fat32.Handles.{
  FileHandle, Reading, finished, prepend, moved, sector_lba, bytes_to_copy, read_loop, stopped,
  int_min, round_end, change_cluster,
}
use open_gpos.Fat32.Stream.{
  IsChain, cluster_byte, chain_bytes, IsMounted, Stands, drop_chain, take_sum, drop_sum,
}
use open_gpos.Fat32.Handles.{read_handle, read_result, is_success, fat32_read, read_open}
use open_gpos.Fat32.Round.{
  small_min, bytes_to_copy-bounds, cluster_end, get_next_cluster-chain, round-bytes,
}

-- A read through a handle at `bytes`: it gives the next `n` of them, and the handle moves behind.
pub record Reads (v : VolumeInfo) (disk : ℕ → ℕ → ℕ) (bytes : List ℕ) (pos n : ℕ) (r : Reading)
    : Type 0 where
  pub handle : FileHandle
  pub result : r ≡ finished success (take n bytes) handle
  pub stands : Stands v disk handle (drop n bytes)
  pub position : handle.current_file_pos ≡ u32 (pos + n)

Reads-prepend :
    (v : VolumeInfo) (disk : ℕ → ℕ → ℕ) (bytes : List ℕ) (pos m n : ℕ) (r : Reading)
    → m ≤ n
    → Reads v disk (drop m bytes) (u32 (pos + m)) (n - m) r
    → Reads v disk bytes pos n (prepend (take m bytes) r)
unfolding prepend
Reads-prepend v disk bytes pos m n r le p =
    let split : n ≡ m + (n - m) = omega arith in
    record {
      handle = p.handle;
      result = rw p.result (
          ap (λ t. finished success t p.handle)
            (sym (take_sum m (n - m) bytes) ∙ ap (λ t. take t bytes) (sym split)));
      stands =
          subst (λ t. Stands v disk p.handle t)
            (sym (drop_sum m (n - m) bytes) ∙ ap (λ t. drop t bytes) (sym split)) p.stands;
      position = omega (arith, p.position);
    }

-- a read up to the end of the chain
Reads-all :
    (v : VolumeInfo) (disk : ℕ → ℕ → ℕ) (h : FileHandle) (bytes : List ℕ) (pos n count : ℕ)
    → length bytes ≡ n
    → count ≡ n
    → IsChain v disk h.current_cluster []
    → h.current_offset ≡ v.bytes_per_cluster
    → h.current_file_pos ≡ u32 (pos + count)
    → Reads v disk bytes pos n (finished success (take count bytes) h)
unfolding chain_bytes
Reads-all v disk h bytes pos n count all same chain end at =
    let none_left : drop n bytes ≡ [] = drop-all bytes n (omega arith) in
    let no_room : v.bytes_per_cluster - h.current_offset ≡ 0 = omega arith in
    record {
      handle = h;
      result = ap (λ t. finished success (take t bytes) h) same;
      stands = record {
        rest = [];
        chain = chain;
        place = inr none_left;
        content =
            none_left
            ∙ ap (λ t. span (cluster_byte v disk h.current_cluster) h.current_offset t)
                (sym no_room);
      };
      position = at ∙ ap (λ t. u32 (pos + t)) same;
    }

Reads-none :
    (v : VolumeInfo) (disk : ℕ → ℕ → ℕ) (h : FileHandle) (bytes : List ℕ) (n : ℕ)
    → Stands v disk h bytes
    → h.current_file_pos < 2 ^ 32
    → n ≡ 0
    → Reads v disk bytes h.current_file_pos n (finished success [] h)
Reads-none v disk h bytes n st low e =
    rw e (record { handle = h; result = refl; stands = st; position = omega arith })

module _ {S : Type 0} (dev : Device S) (v : VolumeInfo) (disk : ℕ → ℕ → ℕ) (Live : S → Type 0) where
  pub read_loop-Reads :
      (fuel n : ℕ) (h : FileHandle) (bytes : List ℕ) (s : S)
      → Serves dev disk Live
      → IsMounted v
      → Live s
      → Stands v disk h bytes
      → n ≤ fuel
      → n ≤ length bytes
      → n < 2 ^ 31
      → h.current_file_pos < 2 ^ 32
      → let r = read_loop dev fuel v n h s in Reads v disk bytes h.current_file_pos n r.0 × Live r.1
  unfolding read_loop moved stopped round_end change_cluster IsChain
  read_loop-Reads zero n h bytes s serves m live st enough there small low =
      let none_left : (n == 0) ≡ true = ground arith in
      rw none_left (Reads-none v disk h bytes n st low (omega arith), live)
  read_loop-Reads (suc fuel) n h bytes s serves m live st enough there small low =
      elim (Bool-cases (n == 0)) [
        | inl over ↦ rw over (Reads-none v disk h bytes n st low (ground arith), live)
        | inr more ↦
            let pos : 0 < n = ground arith in
            let count = bytes_to_copy v h n in
            let (some_bytes, no_more, fit) = bytes_to_copy-bounds v h n m.sectors pos small in
            let inside : h.current_offset < v.bytes_per_cluster = elim st.place [
              | inl i ↦ i
              | inr e ↦ absurd (let size = ap length e in omega arith)
            ] in
            let end : h.current_offset + count ≤ v.bytes_per_cluster = omega (arith, m.clusters) in
            let (got, live') =
              round-bytes dev v disk Live h st.rest count s serves m live fit inside in
            let got' = got ∙ ap (λ t. some (take count t)) (sym st.content) in
            let place : u32 (h.current_offset + count) ≡ h.current_offset + count =
              omega (arith, m.clusters, m.byte_sized) in
            let h' = moved count h in
            let left : n - count ≤ length (drop count bytes) =
              omega (arith, length-drop count bytes) in
            elim (Bool-cases (leb v.bytes_per_cluster (u32 (h.current_offset + count)))) [
              | inl full ↦
                  let s1 =
                    (dev.read_partial (sector_lba v h) (u16 (h.current_offset % v.bytes_per_sector))
                      (u16 count) s).1 in
                  let (asked, live2) =
                    get_next_cluster-chain dev v disk Live h.current_cluster s1 serves m live' in
                  let at_end : h.current_offset + count ≡ v.bytes_per_cluster = ground arith in
                  elim (cluster_end v disk h.current_cluster h.current_offset count bytes st.rest
                    st.chain st.content at_end) [
                      | inl (ended, size) ↦ rw more (
                          rw got' (
                            rw full (
                              rw (asked ∙ ended) (
                                Reads-all v disk h' bytes h.current_file_pos n count (omega arith)
                                    (omega arith) ended (place ∙ at_end) refl,
                                live2,
                              ))))
                      | inr (d, clusters, found, linked, behind) ↦
                          let h2 : FileHandle = record h' {
                            current_cluster = d;
                            current_offset = 0;
                          } in
                          let st' : Stands v disk h2 (drop count bytes) = record {
                            rest = clusters;
                            chain = linked;
                            place = inl (omega (arith, m.clusters, m.some_sectors));
                            content = behind;
                          } in
                          let (again, live_end) =
                            read_loop-Reads fuel (n - count) h2 (drop count bytes) _ serves m live2
                              st' (omega arith) left (omega arith) (omega arith) in
                          rw more (
                            rw got' (
                              rw full (
                                rw (asked ∙ found) (
                                  Reads-prepend v disk bytes h.current_file_pos count n _ no_more
                                      again,
                                  live_end,
                                ))))
                    ]
              | inr within ↦
                  let st' : Stands v disk h' (drop count bytes) = record {
                    rest = st.rest;
                    chain = st.chain;
                    place = inl (ground arith);
                    content =
                        ap (drop count) st.content
                        ∙ drop_chain v disk h.current_cluster h.current_offset count st.rest end
                        ∙ ap (λ t. chain_bytes v disk h.current_cluster t st.rest) (sym place);
                  } in
                  let (again, live_end) =
                    read_loop-Reads fuel (n - count) h' (drop count bytes) _ serves m live' st'
                      (omega arith) left (omega arith) (omega arith) in
                  rw more (
                    rw got' (
                      rw within (
                        Reads-prepend v disk bytes h.current_file_pos count n _ no_more again,
                        live_end,
                      )))
            ]
      ]

-- what `fat_read_file` makes of the count that is asked for
actual_bytes :
    (asked pos size : ℕ)
    → asked < 2 ^ 31
    → size < 2 ^ 31
    → pos ≤ size
    → int_min asked (u32 (size + 2 ^ 32 - pos)) ≡ min asked (size - pos)
actual_bytes asked pos size small small' low =
    let left : u32 (size + 2 ^ 32 - pos) ≡ size - pos = omega arith in
    ap (int_min asked) left
    ∙ small_min asked (size - pos) small (omega arith)
    ∙ (let e : (if ltb asked (size - pos) then asked else size - pos) ≡ min asked (size - pos) =
          ground arith in
        e)

read_handle-read_loop :
    {S : Type 0} (dev : Device S) (v : VolumeInfo) (h : FileHandle) (asked n : ℕ) (s : S)
    → IsMounted v
    → int_min asked (u32 (h.file_size + 2 ^ 32 - h.current_file_pos)) ≡ n
    → read_handle dev v h asked s ≡ read_loop dev n v n h s
unfolding read_handle
read_handle-read_loop dev v h asked n s m e = simp m.ready (ap (λ t. read_loop dev t v t h s) e)

-- `fat32_read` on an open handle in front of the bytes `bytes` of its chain, on a card that serves
-- its reads: it succeeds and gives the next bytes, as many as asked for or as the file size leaves,
-- and the handle then stands behind them. The chain has to have that many bytes, and sizes are
-- below 2 ^ 31.
pub fat32_read-Reads :
    {S : Type 0} (dev : Device S) (v : VolumeInfo) (disk : ℕ → ℕ → ℕ) (Live : S → Type 0)
    (handles : List FileHandle) (file_id n asked : ℕ) (h : FileHandle) (bytes : List ℕ) (s : S)
    → Serves dev disk Live
    → IsMounted v
    → Live s
    → get_elem? handles file_id ≡ some h
    → h.is_free ≡ false
    → Stands v disk h bytes
    → h.current_file_pos ≤ h.file_size
    → h.file_size < 2 ^ 31
    → asked < 2 ^ 31
    → n ≡ min asked (h.file_size - h.current_file_pos)
    → n ≤ length bytes
    → let r = fat32_read dev v handles file_id asked s in
      ((h' : FileHandle) × (r.0
          ≡ some (record { ok = true; bytes = take n bytes; handles = set handles file_id h' }))
        × Stands v disk h' (drop n bytes)
        × (h'.current_file_pos ≡ h.current_file_pos + n))
      × Live r.1
unfolding fat32_read read_open read_result is_success
fat32_read-Reads dev v disk Live handles file_id n asked h bytes s serves m live found open_ st low
      size small count enough =
    let (reads, live') =
      read_loop-Reads dev v disk Live n n h bytes s serves m live st (omega arith) enough
        (omega arith) (omega arith) in
    let run =
      read_handle-read_loop dev v h asked n s m
        (actual_bytes asked h.current_file_pos h.file_size small size low ∙ sym count) in
    rw found (
      simp open_ (
        rw (run, reads.result)
          ((reads.handle, refl, reads.stands, omega (arith, reads.position)), live')))
