-- ===== src/Dma/Start.antt =====
-- The start of a transfer in src/driver/dma/dma.c.
use open_gpos.Base.{
  ℕ, suc, ◌≤◌, ◌+◌, ◌*◌, ◌^◌, ◌<◌, ◌≡◌, refl, ap, ◌∙◌, arith, some, [], ◌∷◌, ◌++◌, bit_and, bit_or,
  ◌!=◌,
}
use open_gpos.Base.Bits.{bit_or_disjoint, bit_or_above}
use open_gpos.Poll.{poll-Ends, poll-first}
use open_gpos.Uart.Wait.{Drains, Drains-Ends}
use open_gpos.Dma.{
  Channel, read_addr, write_addr, trans_count, ctrl_trig, ctrl_en, dma_get_default_config,
  dma_channel_busy, dma_transfer_await, dma_channel_configure, dma_transfer_start, memcpy,
}

await-Drains :
    (bound : ℕ) (c : Channel)
    → Drains bound (2 ^ 24) c.control
    → (p : ℕ) × (dma_transfer_await bound c ≡ some (record c { control_read = p }))
unfolding dma_transfer_await dma_channel_busy
await-Drains bound c drains =
    let (p, run) =
      poll-Ends bound (λ r. bit_and r (2 ^ 24) != 0) c.control c.control_read
        (Drains-Ends bound (2 ^ 24) c.control drains) in
    (p, rw run refl)

-- the control word of a transfer of bytes from and to rising addresses, unpaced, chained to itself
abbrev pub byte_copy : ℕ → ℕ
byte_copy channel = 0x3f * 2 ^ 15 + (channel * 2 ^ 11 + 0x31)

default-byte_copy :
    (channel : ℕ)
    → channel < 16
    → bit_or (dma_get_default_config channel) ctrl_en ≡ byte_copy channel
unfolding dma_get_default_config
default-byte_copy channel low =
    let inner : bit_or 48 (channel * 2 ^ 11) ≡ channel * 2 ^ 11 + 48 =
      bit_or_above 11 channel 48 (omega arith) in
    let outer : bit_or (channel * 2 ^ 11 + 48) (63 * 2 ^ 15)
        ≡ 63 * 2 ^ 15 + (channel * 2 ^ 11 + 48) =
      bit_or_above 15 63 (channel * 2 ^ 11 + 48) (omega arith) in
    let even : 63 * 2 ^ 15 + (channel * 2 ^ 11 + 48)
        ≡ (63 * 2 ^ 14 + (channel * 2 ^ 10 + 24)) * 2 ^ 1 =
      omega arith in
    ap (λ t. bit_or (bit_or t (63 * 2 ^ 15)) 1) inner
    ∙ ap (λ t. bit_or t 1) (outer ∙ even)
    ∙ bit_or_disjoint 1 (63 * 2 ^ 14 + (channel * 2 ^ 10 + 24)) 1 (omega arith)
    ∙ omega arith

-- `dma_transfer_start` on one of 16 channels, which is not busy in one of any `bound` reads of its
-- control register, ends: it writes the two addresses and the count, and last, which starts the
-- transfer, the control word of an unpaced transfer of bytes that chains to no other channel.
pub dma_transfer_start-writes :
    (bound src dst n channel : ℕ) (c : Channel)
    → Drains bound (2 ^ 24) c.control
    → channel < 16
    → (p : ℕ) × (dma_transfer_start bound src dst n channel c
        ≡ some (record c {
          control_read = p;
          written =
              c.written
              ++ ((read_addr, src)
                  ∷ (write_addr, dst)
                  ∷ (trans_count, n)
                  ∷ (ctrl_trig, byte_copy channel)
                  ∷ []);
        }))
unfolding dma_transfer_start dma_channel_configure
dma_transfer_start-writes bound src dst n channel c drains low =
    let (p, run) = await-Drains bound c drains in
    let (q, run') = await-Drains bound (record c { control_read = p }) drains in
    (
      q,
      rw run (
          rw run' (
            ap
              (λ t. some (record c {
                control_read = q;
                written =
                    c.written
                    ++ ((read_addr, src)
                        ∷ (write_addr, dst)
                        ∷ (trans_count, n)
                        ∷ (ctrl_trig, t)
                        ∷ []);
              }))
              (default-byte_copy channel low))),
    )

-- The wait ends behind a read at which the channel is not busy.
await-idle :
    (bound : ℕ) (c : Channel)
    → Drains bound (2 ^ 24) c.control
    → (p : ℕ) × (dma_transfer_await bound c ≡ some (record c { control_read = suc p }))
      × (c.control_read ≤ p)
      × (bit_and (c.control p) (2 ^ 24) ≡ 0)
unfolding dma_transfer_await dma_channel_busy
await-idle bound c drains =
    let busy = λ (r : ℕ). bit_and r (2 ^ 24) != 0 in
    let (q, run) =
      poll-Ends bound busy c.control c.control_read (Drains-Ends bound (2 ^ 24) c.control drains) in
    let (j, last, off, before) = poll-first bound busy c.control c.control_read q run in
    let next : q ≡ suc (c.control_read + j) = omega arith in
    (
      c.control_read + j,
      rw run (ap (λ n. some (record c { control_read = n })) next),
      omega arith,
      ground arith,
    )

-- a channel with the descriptor of a transfer on channel 0
abbrev pub described : Channel → ℕ → ℕ → ℕ → ℕ → Channel
described c reads source destination num = record c {
  control_read = reads;
  written =
      c.written
      ++ ((read_addr, source)
          ∷ (write_addr, destination)
          ∷ (trans_count, num)
          ∷ (ctrl_trig, byte_copy 0)
          ∷ []);
}

-- `memcpy`, where channel 0 is not busy in one of any `bound` reads of its control register, ends: it
-- writes the descriptor of one transfer of `num` bytes from the source to the destination, whose
-- last word starts it, and returns the destination behind a read at which the channel is not busy
-- and which is later than the reads of `dma_transfer_start`.
pub memcpy-transfers :
    (bound destination source num : ℕ) (c : Channel)
    → Drains bound (2 ^ 24) c.control
    → (started p : ℕ) × (dma_transfer_start bound source destination num 0 c
        ≡ some (described c started source destination num))
      × (memcpy bound destination source num c
          ≡ some (destination, described c (suc p) source destination num))
      × (started ≤ p)
      × (bit_and (c.control p) (2 ^ 24) ≡ 0)
unfolding memcpy
memcpy-transfers bound destination source num c drains =
    let (q, run) =
      dma_transfer_start-writes bound source destination num 0 c drains (omega arith) in
    let (p, waited, later, idle) = await-idle bound (described c q source destination num) drains in
    (q, p, run, rw run (rw waited refl), later, idle)
