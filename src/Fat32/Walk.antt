-- ===== src/Fat32/Walk.antt =====
-- How the iterator of src/driver/fs/FAT32.c walks over the sectors and clusters of a directory: the
-- load at the head of a round of `fat_read_next_dir_entry`.
use open_gpos.Base.{
  ℕ, suc, ◌+◌, ◌-◌, ◌/◌, ◌≤◌, ◌<◌, Bool, true, false, List, [], ◌∷◌, ◌++◌, ◌≡◌, refl, sym, ap, ◌∙◌,
  arith, u16, u32, append_assoc, Bool-cases, inl, inr, not, ◌||◌, leb, if◌then◌else◌, ◌⊎◌, subst,
}
use open_gpos.Fat32.Device.{Device, Serves, span}
use open_gpos.Fat32.Volume.{VolumeInfo}
use open_gpos.Fat32.Chain.{next, stop, end_of_chain, fat_cluster_to_lba, get_next_cluster}
use open_gpos.Fat32.Stream.{chain_next, IsChain, IsMounted}
use open_gpos.Fat32.Round.{get_next_cluster-chain}
use open_gpos.Fat32.Dir.{
  DirIterator, Loaded, ready, failed, raw_entry, buffer_sector, read_sector, enter_cluster,
  load_sector, passed,
}
use open_gpos.Fat32.Listing.{
  sector_entries, cluster_sector, cluster_entries, chain_entries, pending, Lists, Faces,
}

-- a sector of the chain, and the entries behind it
chain_entries-sector :
    (v : VolumeInfo) (disk : ℕ → ℕ → ℕ) (c k : ℕ) (rest : List ℕ)
    → k < v.sectors_per_cluster
    → chain_entries v disk c k rest
      ≡ sector_entries (cluster_sector v disk c k) 0 16 ++ chain_entries v disk c (k + 1) rest
unfolding chain_entries cluster_entries
chain_entries-sector v disk c k [] inside =
    let e : v.sectors_per_cluster - k ≡ suc (v.sectors_per_cluster - (k + 1)) = omega arith in
    ap (cluster_entries v disk c k) e
chain_entries-sector v disk c k (d ∷ rest) inside =
    let e : v.sectors_per_cluster - k ≡ suc (v.sectors_per_cluster - (k + 1)) = omega arith in
    ap (λ t. cluster_entries v disk c k t ++ chain_entries v disk d 0 rest) e
    ∙ append_assoc (sector_entries (cluster_sector v disk c k) 0 16)
        (cluster_entries v disk c (k + 1) (v.sectors_per_cluster - (k + 1)))
        (chain_entries v disk d 0 rest)

-- The entry that an iterator faces is the first of its list, and behind it stands the rest.
pub Faces-entry :
    (v : VolumeInfo) (disk : ℕ → ℕ → ℕ) (it : DirIterator) (raws : List (List ℕ))
    → Faces v disk it raws
    → (rs : List (List ℕ)) × (raws ≡ raw_entry it.sector_buffer it.current_entry_in_sector ∷ rs)
      × ((lfn_checksum : ℕ) → Lists v disk (passed lfn_checksum it) rs)
unfolding pending passed sector_entries
Faces-entry v disk it raws f =
    let i = it.current_entry_in_sector in
    let k = u32 (it.current_sector_in_cluster + 1) in
    let behind = chain_entries v disk it.current_cluster k f.lists.rest in
    let left : 16 - i ≡ suc (16 - (i + 1)) = omega (arith, f.inside) in
    let moved : u16 (i + 1) ≡ i + 1 = omega (arith, f.inside) in
    let shown : pending it ≡ sector_entries it.sector_buffer i (16 - i) = simp f.valid in
    let next_shown : (c : ℕ)
        → pending (passed c it) ≡ sector_entries it.sector_buffer (i + 1) (16 - (i + 1)) =
      λ c. simp f.valid (ap (λ t. sector_entries it.sector_buffer t (16 - t)) moved) in
    (
      sector_entries it.sector_buffer (i + 1) (16 - (i + 1)) ++ behind,
      f.lists.content ∙ ap (λ t. t ++ behind) (shown ∙ ap (sector_entries it.sector_buffer i) left),
      λ c. record {
        rest = f.lists.rest;
        chain = f.lists.chain;
        sector = f.lists.sector;
        entry = omega (arith, f.inside);
        content = ap (λ t. t ++ behind) (sym (next_shown c));
      },
    )

-- behind the last sector of a cluster
IsChain-end :
    (v : VolumeInfo) (disk : ℕ → ℕ → ℕ) (c k : ℕ) (rest : List ℕ)
    → IsChain v disk c rest
    → v.sectors_per_cluster ≤ k
    → ((chain_next v disk c ≡ stop end_of_chain) × (chain_entries v disk c k rest ≡ []))
      ⊎ ((d : ℕ) × (more : List ℕ) × (chain_next v disk c ≡ next d)
          × IsChain v disk d more
          × (chain_entries v disk c k rest ≡ chain_entries v disk d 0 more))
unfolding IsChain chain_entries cluster_entries
IsChain-end v disk c k [] chain full =
    let none_left : v.sectors_per_cluster - k ≡ 0 = omega arith in
    inl (chain, ap (cluster_entries v disk c k) none_left)
IsChain-end v disk c k (d ∷ more) chain full =
    let none_left : v.sectors_per_cluster - k ≡ 0 = omega arith in
    inr (
      d,
      more,
      chain.0,
      chain.1,
      ap (λ t. cluster_entries v disk c k t ++ chain_entries v disk d 0 more) none_left,
    )

-- the test at the head of a round
nothing_pending :
    (sector : List ℕ) (valid : Bool) (limit i : ℕ)
    → limit ≡ 16
    → (not valid || leb limit i) ≡ true
    → (if valid then sector_entries sector i (16 - i) else []) ≡ []
unfolding sector_entries
nothing_pending sector true limit i e h =
    let none_left : 16 - i ≡ 0 = ground arith in ap (sector_entries sector i) none_left
nothing_pending sector false limit i e h = refl

something_pending :
    (valid : Bool) (limit i : ℕ)
    → limit ≡ 16
    → (not valid || leb limit i) ≡ false
    → (valid ≡ true) × (i < 16)
something_pending true limit i e h = (refl, ground arith)
something_pending false limit i e h = cc

module _ {S : Type 0} (dev : Device S) (v : VolumeInfo) (disk : ℕ → ℕ → ℕ) (Live : S → Type 0) where
  -- What a load comes to: the end of the chain, or an iterator that faces the first entry.
  abbrev pub Loads : List (List ℕ) → ℕ → Loaded → Type 0
  Loads raws lfn_checksum r =
      ((it' : DirIterator) × (r ≡ failed end_of_chain it') × (raws ≡ []))
      ⊎ ((it' : DirIterator) × (r ≡ ready it')
          × Faces v disk it' raws
          × (it'.lfn_checksum ≡ lfn_checksum))

  read_sector-Loads :
      (it : DirIterator) (rest : List ℕ) (s : S)
      → Serves dev disk Live
      → IsMounted v
      → Live s
      → IsChain v disk it.current_cluster rest
      → it.current_sector_in_cluster < v.sectors_per_cluster
      → it.current_entry_in_sector ≡ 0
      → let r = read_sector dev v it s in
        Loads
          (chain_entries v disk it.current_cluster it.current_sector_in_cluster rest)
          it.lfn_checksum
          r.0
        × Live r.1
  unfolding read_sector buffer_sector pending cluster_sector
  read_sector-Loads it rest s serves m live chain inside first =
      let k = it.current_sector_in_cluster in
      let lba = u32 (fat_cluster_to_lba v it.current_cluster + k) in
      let (got, live') = serves.wholly s lba live in
      let it' : DirIterator = record it {
        sector_buffer = span (disk lba) 0 512;
        sector_buffer_valid = true;
      } in
      let up : u32 (k + 1) ≡ k + 1 = omega (arith, m.byte_sized) in
      let faces : Faces v disk it' (chain_entries v disk it.current_cluster k rest) = record {
        lists = record {
          rest = rest;
          chain = chain;
          sector = omega arith;
          entry = omega arith;
          content =
              chain_entries-sector v disk it.current_cluster k rest inside
              ∙ ap
                  (λ t.
                    sector_entries (cluster_sector v disk it.current_cluster k) t (16 - t)
                    ++ chain_entries v disk it.current_cluster (k + 1) rest)
                  (sym first)
              ∙ ap (λ t. pending it' ++ chain_entries v disk it.current_cluster t rest) (sym up);
        };
        valid = refl;
        inside = omega arith;
      } in
      rw (got, buffer_sector) (inr (it', refl, faces, refl), live')

  next_cluster-Loads :
      (it : DirIterator) (raws : List (List ℕ)) (k : ℕ) (rest : List ℕ) (s : S)
      → Serves dev disk Live
      → IsMounted v
      → Live s
      → IsChain v disk it.current_cluster rest
      → v.sectors_per_cluster ≤ k
      → raws ≡ chain_entries v disk it.current_cluster k rest
      → let r =
          enter_cluster dev v
            (record it { current_sector_in_cluster = k; current_entry_in_sector = 0 })
            (get_next_cluster dev v it.current_cluster s) in
        Loads raws it.lfn_checksum r.0 × Live r.1
  unfolding enter_cluster
  next_cluster-Loads it raws k rest s serves m live chain full raws_eq =
      let s' = (get_next_cluster dev v it.current_cluster s).1 in
      let (asked, live') =
        get_next_cluster-chain dev v disk Live it.current_cluster s serves m live in
      elim (IsChain-end v disk it.current_cluster k rest chain full) [
        | inl (ended, nil) ↦ rw (asked ∙ ended, enter_cluster) (inl (_, refl, raws_eq ∙ nil), live')
        | inr (d, more, there, linked, behind) ↦
            let it' : DirIterator = record it {
              current_cluster = d;
              current_sector_in_cluster = 0;
              current_entry_in_sector = 0;
            } in
            let (r, live2) =
              read_sector-Loads it' more s' serves m live' linked m.some_sectors refl in
            rw (asked ∙ there, enter_cluster)
              (
                subst (λ t. Loads t it.lfn_checksum (read_sector dev v it' s').0)
                    (sym (raws_eq ∙ behind)) r,
                live2,
              )
      ]

  -- A round's load finds the end of the directory, or faces its next entry.
  pub load_sector-Loads :
      (it : DirIterator) (raws : List (List ℕ)) (s : S)
      → Serves dev disk Live
      → IsMounted v
      → Live s
      → Lists v disk it raws
      → Loads raws it.lfn_checksum (load_sector dev v it s).0 × Live (load_sector dev v it s).1
  unfolding load_sector pending
  load_sector-Loads it raws s serves m live l =
      let k = u32 (it.current_sector_in_cluster + 1) in
      let limit : v.bytes_per_sector / 32 ≡ 16 = omega (arith, m.sectors) in
      let tests =
        not it.sector_buffer_valid || leb (v.bytes_per_sector / 32) it.current_entry_in_sector in
      elim (Bool-cases tests) [
        | inl over ↦
            let raws_eq =
              l.content
              ∙ ap (λ t. t ++ chain_entries v disk it.current_cluster k l.rest)
                  (nothing_pending it.sector_buffer it.sector_buffer_valid (v.bytes_per_sector / 32)
                    it.current_entry_in_sector limit over) in
            rw over (elim (Bool-cases (leb v.sectors_per_cluster k)) [
              | inl full ↦ rw full (
                  next_cluster-Loads it raws k l.rest s serves m live l.chain (ground arith)
                    raws_eq)
              | inr more ↦ rw more (
                  let it' : DirIterator = record it {
                    current_sector_in_cluster = k;
                    current_entry_in_sector = 0;
                  } in
                  let (r, live') =
                    read_sector-Loads it' l.rest s serves m live l.chain (ground arith) refl in
                  (
                    subst (λ t. Loads t it.lfn_checksum (read_sector dev v it' s).0) (sym raws_eq)
                        r,
                    live',
                  ))
            ])
        | inr within ↦
            let (valid, inside) =
              something_pending it.sector_buffer_valid (v.bytes_per_sector / 32)
                it.current_entry_in_sector limit within in
            rw within
              (inr (it, refl, record { lists = l; valid = valid; inside = inside }, refl), live)
      ]
