-- ===== src/Sd/Tests.antt =====
-- Runs of the driver against a small card, and the theorems at its answers.
use open_gpos.Base.{
  ℕ, ◌+◌, ◌≡◌, refl, some, false, [], ◌∷◌, arith, ltb, ◌==◌, if◌then◌else◌, not, u8,
}
use open_gpos.Sd.Line.{Line, selected}
use open_gpos.Sd.Receive.{window}
use open_gpos.Sd.Partial.{part_of, sd_read_partial_block-slice}
use open_gpos.Sd.Select.{sd_init-selected, transfers-selected}
use open_gpos.Sd.Answer.{Answers, sd_read_block-answer}
use open_gpos.Sd.Control.{sd_init, sd_write_block, sd_shutdown}
use open_gpos.Sd.{
  sd_read_block, sd_read_partial_block, read_command, read_r1_response, r1_loop, sd_send_command,
  deassert_cs, read_data_block_partial, token_loop, receive_part, read_bytes, discard,
}

-- Two idle bytes, the answer to CMD17, one idle byte, the token, and then a counter.
abbrev answers : ℕ → ℕ
answers i = if i == 2 then 0x00 else if ltb i 4 then 0xff else if i == 4 then 0xfe else u8 (i + 251)

abbrev card : Line
card = record { rx = answers; pos = 0; events = [] }

reads_part : (sd_read_partial_block 7 10 4 card).0 ≡ some (10 ∷ 11 ∷ 12 ∷ 13 ∷ [])
unfolding sd_read_partial_block read_command read_r1_response r1_loop sd_send_command deassert_cs
    read_data_block_partial token_loop receive_part read_bytes discard
reads_part = refl

sd_read_partial_block-slice_example :
    sd_read_partial_block 7 10 4 card ≡ part_of 10 4 (sd_read_block 7 card)
sd_read_partial_block-slice_example = sd_read_partial_block-slice 10 4 (omega arith) 7 card

sd_init-selected_example : selected (sd_init card).1.events ≡ (sd_init card).0
sd_init-selected_example = sd_init-selected card

transfers-selected_example :
    (selected (sd_read_block 7 card).1.events ≡ false)
    × (selected (sd_read_partial_block 7 10 4 card).1.events ≡ false)
    × (selected (sd_write_block 7 (1 ∷ 2 ∷ []) card).1.events ≡ false)
    × (selected (sd_shutdown card).1.events ≡ not (sd_shutdown card).0)
transfers-selected_example = transfers-selected 7 10 4 (1 ∷ 2 ∷ []) card

accepted : Answers answers 0 2 0x00
accepted = record { idle = λ j h. ground arith; answer = refl }

token : Answers answers 3 1 0xfe
token = record { idle = λ j h. ground arith; answer = refl }

sd_read_block-answer_example :
    ((sd_read_block 7 card).0 ≡ some (window answers 5 512)) × ((sd_read_block 7 card).1.pos ≡ 519)
sd_read_block-answer_example =
    sd_read_block-answer 7 2 1 card (omega arith) (omega arith) accepted token
