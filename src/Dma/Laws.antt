-- ===== src/Dma/Laws.antt =====
-- Each setter of src/driver/dma/dma.c replaces its own field.
use open_gpos.Base.{
  ℕ, ◌*◌, ◌%◌, ◌^◌, ◌<◌, ◌≡◌, Bool, true, false, ap, ◌∙◌, arith, bit_and, bit_or, if◌then◌else◌,
  ◌<<<◌,
}
use open_gpos.Base.Bits.{bit_and_mask}
use open_gpos.Dma.{
  dma_config_set_data_size, dma_config_set_read_increment, dma_config_set_write_increment,
  dma_config_set_chain, dma_config_set_treq, dma_config_set_ring, ring_sel, complement,
}
use open_gpos.Dma.Fields.{put, field_lem}

abbrev pub bit : Bool → ℕ
bit true = 1
bit false = 0

set_data_size : (c size : ℕ) → c < 2 ^ 32 → dma_config_set_data_size c size ≡ put 2 2 (size % 4) c
unfolding dma_config_set_data_size
set_data_size c size small =
    ap (λ t. bit_or (bit_and c (complement (0b11 <<< 2))) (t * 2 ^ 2)) (bit_and_mask 2 size)
    ∙ field_lem 2 2 28 c (size % 4) (omega arith) (omega arith) (omega arith) (omega arith)
        (omega arith)

set_read_increment :
    (c : ℕ) (enabled : Bool)
    → c < 2 ^ 32
    → dma_config_set_read_increment c enabled ≡ put 4 1 (bit enabled) c
unfolding dma_config_set_read_increment
set_read_increment c true small =
    field_lem 4 1 27 c 1 (omega arith) (omega arith) (omega arith) (omega arith) (omega arith)
set_read_increment c false small =
    field_lem 4 1 27 c 0 (omega arith) (omega arith) (omega arith) (omega arith) (omega arith)

set_write_increment :
    (c : ℕ) (enabled : Bool)
    → c < 2 ^ 32
    → dma_config_set_write_increment c enabled ≡ put 5 1 (bit enabled) c
unfolding dma_config_set_write_increment
set_write_increment c true small =
    field_lem 5 1 26 c 1 (omega arith) (omega arith) (omega arith) (omega arith) (omega arith)
set_write_increment c false small =
    field_lem 5 1 26 c 0 (omega arith) (omega arith) (omega arith) (omega arith) (omega arith)

set_chain :
    (c channel : ℕ) → c < 2 ^ 32 → dma_config_set_chain c channel ≡ put 11 4 (channel % 16) c
unfolding dma_config_set_chain
set_chain c channel small =
    ap (λ t. bit_or (bit_and c (complement (0b1111 <<< 11))) (t * 2 ^ 11)) (bit_and_mask 4 channel)
    ∙ field_lem 11 4 17 c (channel % 16) (omega arith) (omega arith) (omega arith) (omega arith)
        (omega arith)

set_treq : (c treq : ℕ) → c < 2 ^ 32 → dma_config_set_treq c treq ≡ put 15 6 (treq % 64) c
unfolding dma_config_set_treq
set_treq c treq small =
    ap (λ t. bit_or (bit_and c (complement (0b111111 <<< 15))) (t * 2 ^ 15)) (bit_and_mask 6 treq)
    ∙ field_lem 15 6 11 c (treq % 64) (omega arith) (omega arith) (omega arith) (omega arith)
        (omega arith)

set_ring_size :
    (c exponent : ℕ)
    → c < 2 ^ 32
    → bit_or (bit_and c (complement (0b1111 <<< 6))) (bit_and exponent 0b1111 <<< 6)
      ≡ put 6 4 (exponent % 16) c
set_ring_size c exponent small =
    ap (λ t. bit_or (bit_and c (complement (0b1111 <<< 6))) (t * 2 ^ 6)) (bit_and_mask 4 exponent)
    ∙ field_lem 6 4 22 c (exponent % 16) (omega arith) (omega arith) (omega arith) (omega arith)
        (omega arith)

set_ring_select :
    (c : ℕ) (on_write : Bool)
    → c < 2 ^ 32
    → bit_or (bit_and c (complement ring_sel)) (if on_write then ring_sel else 0)
      ≡ put 10 1 (bit on_write) c
set_ring_select c true small =
    field_lem 10 1 21 c 1 (omega arith) (omega arith) (omega arith) (omega arith) (omega arith)
set_ring_select c false small =
    field_lem 10 1 21 c 0 (omega arith) (omega arith) (omega arith) (omega arith) (omega arith)

put_small : (c v : ℕ) → c < 2 ^ 32 → v < 16 → put 6 4 v c < 2 ^ 32
put_small c v small low = omega arith

-- Each setter of a configuration of 32 bits replaces its own field, by the low bits of its argument
-- that the field has, and leaves every other bit: the data size, the two increments, the channel to
-- chain to, the transfer request, and the size and the side of the ring.
pub dma_config-put :
    (c n : ℕ) (enabled : Bool)
    → c < 2 ^ 32
    → (dma_config_set_data_size c n ≡ put 2 2 (n % 4) c)
      × (dma_config_set_read_increment c enabled ≡ put 4 1 (bit enabled) c)
      × (dma_config_set_write_increment c enabled ≡ put 5 1 (bit enabled) c)
      × (dma_config_set_chain c n ≡ put 11 4 (n % 16) c)
      × (dma_config_set_treq c n ≡ put 15 6 (n % 64) c)
      × (dma_config_set_ring c enabled n ≡ put 10 1 (bit enabled) (put 6 4 (n % 16) c))
unfolding dma_config_set_ring
dma_config-put c n enabled small = (
  set_data_size c n small,
  set_read_increment c enabled small,
  set_write_increment c enabled small,
  set_chain c n small,
  set_treq c n small,
  ap (λ t. bit_or (bit_and t (complement ring_sel)) (if enabled then ring_sel else 0))
        (set_ring_size c n small)
      ∙ set_ring_select (put 6 4 (n % 16) c) enabled (put_small c (n % 16) small (omega arith)),
)
