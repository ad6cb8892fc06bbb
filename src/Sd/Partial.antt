-- ===== src/Sd/Partial.antt =====
-- `sdReadPartialBlock` against `sdReadBlock`: on the same line the partial read returns the asked
-- for part of what the whole read returns, and leaves the line in the same state.
use mathlib.Core.Option
use open_gpos.Base.{
  ℕ, ◌+◌, ◌-◌, ◌^◌, ◌≤◌, ◌<◌, ◌≡◌, refl, sym, List, ap, ap₂, arith, ◌∙◌, take, drop, Bool, true,
  false, Option, none, some, ◌==◌, ◌!=◌, u16, ◌||◌, if◌then◌else◌,
}
use open_gpos.Sd.Line.{Line, ◌>>=◌, ◌>>◌, pure}
use open_gpos.Sd.{
  discard, token_loop, receive_block, receive_part, read_data_block, read_data_block_partial,
  read_command, rounds, deassert_cs, read_r1_response, sd_send_command, sd_read_block,
  sd_read_partial_block,
}
use open_gpos.Sd.Receive.{
  advance, advance-advance, read_bytes-window, discard-advance, take-drop-window,
}

-- `count` bytes from `offset` on
abbrev pub slice : ℕ → ℕ → List ℕ → List ℕ
slice offset count bytes = take count (drop offset bytes)

abbrev pub part_of : ℕ → ℕ → Option (List ℕ) × Line → Option (List ℕ) × Line
part_of offset count r = (Option.map (slice offset count) r.0, r.1)

module _ (size offset count : ℕ) (fits : offset + count ≤ size) (small : size < 2 ^ 15) where
  receive_part_lem :
      (l : Line) → receive_part size offset count l ≡ part_of offset count (receive_block size l)
  unfolding receive_part receive_block discard
  receive_part_lem l =
      let left : u16 (size + 2 + 2 ^ 17 - offset - count) ≡ size + 2 - offset - count =
        omega arith in
      let l1 = advance offset l in
      let l2 = advance count l1 in
      let rest = size + 2 - offset - count in
      let lines : advance rest l2 ≡ advance 2 (advance size l) =
        advance-advance rest count l1
        ∙ advance-advance (count + rest) offset l
        ∙ ap (λ n. advance n l) (omega arith)
        ∙ sym (advance-advance 2 size l) in
      rw
        (
          discard-advance offset l,
          read_bytes-window count l1,
          left,
          discard-advance rest l2,
          read_bytes-window size l,
        )
        (ap₂ (λ bs k. (some bs, k)) (sym (take-drop-window l.rx l.pos offset count size fits))
          (lines ∙ sym (ap (λ r. r.1) (discard-advance 2 (advance size l)))))

module _ (offset count : ℕ) (fits : offset + count ≤ 512) where
  -- The tests of both reads, in their two ways of writing.
  tests_part :
      (late wrong : Bool) (l : Line)
      → (if late || wrong then pure none else receive_part 512 offset count) l
        ≡ part_of offset count
            ((if late then pure none else if wrong then pure none else receive_block 512) l)
  tests_part true wrong l = refl
  tests_part false true l = refl
  tests_part false false l = receive_part_lem 512 offset count fits (omega arith) l

  data_part :
      (timeout_val : ℕ) (l : Line)
      → read_data_block_partial offset count timeout_val l
        ≡ part_of offset count (read_data_block timeout_val l)
  unfolding read_data_block_partial read_data_block
  data_part timeout_val l =
      let r = token_loop (rounds timeout_val) l in tests_part (r.0.1 == 0) (r.0.0 != 0xfe) r.1

  command_part :
      (refused : Bool) (l : Line)
      → (if refused
            then deassert_cs >> pure none
            else (do bytes ← read_data_block_partial offset count 0xffff; deassert_cs; pure bytes))
          l
        ≡ part_of offset count (
            (if refused
                then deassert_cs >> pure none
                else (do bytes ← read_data_block 0xffff; deassert_cs; pure bytes))
              l)
  command_part true l = refl
  command_part false l = ap (λ r. (r.0, (deassert_cs r.1).1)) (data_part 0xffff l)

  -- The partial read is the part of the whole read.
  pub sd_read_partial_block-slice :
      (block_number : ℕ) (l : Line)
      → sd_read_partial_block block_number offset count l
        ≡ part_of offset count (sd_read_block block_number l)
  unfolding sd_read_partial_block sd_read_block read_command
  sd_read_partial_block-slice block_number l =
      let r = read_r1_response 0xff (sd_send_command 0x51 block_number 0x01 l).1 in
      command_part (r.0 != 0x00) r.1
