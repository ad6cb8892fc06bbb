-- ===== src/Dma/Tests.antt =====
-- A configuration, and a channel that is busy once.
use open_gpos.Base.{
  ℕ, ◌≤◌, bit_and, ◌%◌, ◌^◌, ◌≡◌, true, refl, arith, some, [], ◌∷◌, ◌==◌, if◌then◌else◌, zero, suc,
}
use open_gpos.Uart.Wait.{Drains}
use open_gpos.Dma.{
  Channel, read_addr, write_addr, trans_count, ctrl_trig, dma_transfer_start, memcpy,
  dma_config_set_data_size, dma_config_set_read_increment, dma_config_set_write_increment,
  dma_config_set_chain, dma_config_set_treq, dma_config_set_ring,
}
use open_gpos.Dma.Fields.{put}
use open_gpos.Dma.Laws.{bit, dma_config-put}
use open_gpos.Dma.Start.{byte_copy, described, dma_transfer_start-writes, memcpy-transfers}

dma_config-put_example :
    (dma_config_set_data_size 0x1f8030 2 ≡ put 2 2 (2 % 4) 0x1f8030)
    × (dma_config_set_read_increment 0x1f8030 true ≡ put 4 1 (bit true) 0x1f8030)
    × (dma_config_set_write_increment 0x1f8030 true ≡ put 5 1 (bit true) 0x1f8030)
    × (dma_config_set_chain 0x1f8030 2 ≡ put 11 4 (2 % 16) 0x1f8030)
    × (dma_config_set_treq 0x1f8030 2 ≡ put 15 6 (2 % 64) 0x1f8030)
    × (dma_config_set_ring 0x1f8030 true 2 ≡ put 10 1 (bit true) (put 6 4 (2 % 16) 0x1f8030))
dma_config-put_example = dma_config-put 0x1f8030 2 true (omega arith)

abbrev busy_once : Channel
busy_once = record { control = λ p. if p == 0 then 2 ^ 24 else 0; control_read = 0; written = [] }

drains : Drains 2 (2 ^ 24) busy_once.control
drains zero = (1, omega arith, refl)
drains (suc p) = (0, omega arith, ground arith)

dma_transfer_start-writes_example :
    (p : ℕ) × (dma_transfer_start 2 100 200 8 3 busy_once
      ≡ some (record busy_once {
        control_read = p;
        written =
            (read_addr, 100) ∷ (write_addr, 200) ∷ (trans_count, 8) ∷ (ctrl_trig, byte_copy 3) ∷ [];
      }))
dma_transfer_start-writes_example =
    dma_transfer_start-writes 2 100 200 8 3 busy_once drains (omega arith)

memcpy-transfers_example :
    (started p : ℕ) × (dma_transfer_start 2 100 200 8 0 busy_once
      ≡ some (described busy_once started 100 200 8))
    × (memcpy 2 200 100 8 busy_once ≡ some (200, described busy_once (suc p) 100 200 8))
    × (started ≤ p)
    × (bit_and (busy_once.control p) (2 ^ 24) ≡ 0)
memcpy-transfers_example = memcpy-transfers 2 200 100 8 busy_once drains
