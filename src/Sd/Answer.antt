-- ===== src/Sd/Answer.antt =====
-- What the driver makes of a card that answers in time.
use open_gpos.Base.{
  ℕ, zero, suc, ◌+◌, ◌-◌, ◌<◌, ◌≡◌, ◌≢◌, refl, ◌∙◌, ap, ap₂, true, false, none, some, ◌==◌, ◌!=◌,
  arith, Bool-cases, inl, inr, ◌&&◌, if◌then◌else◌,
}
use open_gpos.Sd.Line.{Line}
use open_gpos.Sd.{
  deassert_cs, sd_send_command, r1_loop, read_r1_response, token_loop, receive_block,
  read_data_block, read_command, sd_read_block,
}
use open_gpos.Sd.Receive.{window, advance, read_bytes-window, advance-one}

-- From `i` on the card answers `k` idle bytes and then `b`.
pub record Answers (rx : ℕ → ℕ) (i k b : ℕ) : Type 0 where
  pub idle : (j : ℕ) → j < k → rx (i + j) ≡ 0xff
  pub answer : rx (i + k) ≡ b

later : (rx : ℕ → ℕ) (i k b : ℕ) → Answers rx i (suc k) b → Answers rx (i + 1) k b
later rx i k b a = record {
  idle = λ j h.
      ap rx (let e : i + 1 + j ≡ i + suc j = omega arith in e) ∙ a.idle (suc j) (omega arith);
  answer = ap rx (let e : i + 1 + k ≡ i + suc k = omega arith in e) ∙ a.answer;
}

now : (rx : ℕ → ℕ) (i b : ℕ) → Answers rx i 0 b → rx i ≡ b
now rx i b a = ap rx (let e : i ≡ i + 0 = omega arith in e) ∙ a.answer

idle_now : (rx : ℕ → ℕ) (i k b : ℕ) → Answers rx i (suc k) b → rx i ≡ 0xff
idle_now rx i k b a = ap rx (let e : i ≡ i + 0 = omega arith in e) ∙ a.idle 0 (omega arith)

r1_loop-answer :
    (k t b : ℕ) (l : Line)
    → k < t
    → b ≢ 0xff
    → Answers l.rx l.pos k b
    → r1_loop t l ≡ (b, advance (suc k) l)
unfolding r1_loop
r1_loop-answer k zero b l h ne a = absurd (omega arith)
r1_loop-answer zero (suc t) b l h ne a =
    let e : l.rx l.pos ≡ b = now l.rx l.pos b a in
    let f : (l.rx l.pos == 0xff) ≡ false = ground arith in rw f (ap (λ x. (x, advance 1 l)) e)
r1_loop-answer (suc k) (suc t) b l h ne a =
    let e : l.rx l.pos ≡ 0xff = idle_now l.rx l.pos k b a in
    let f : ((l.rx l.pos == 0xff) && (t != 0)) ≡ true = ground arith in
    rw f (
      r1_loop-answer k t b _ (omega arith) ne (later l.rx l.pos k b a)
      ∙ ap (λ x. (b, x)) (advance-one (suc k) l))

token_loop-answer :
    (k t b : ℕ) (l : Line)
    → k < t
    → b ≢ 0xff
    → Answers l.rx l.pos k b
    → token_loop t l ≡ ((b, t - suc k), advance (suc k) l)
unfolding token_loop
token_loop-answer k zero b l h ne a = absurd (omega arith)
token_loop-answer zero (suc t) b l h ne a =
    let e : l.rx l.pos ≡ b = now l.rx l.pos b a in
    let f : (l.rx l.pos == 0xff) ≡ false = ground arith in
    let left : t ≡ suc t - 1 = omega arith in rw f (ap₂ (λ x y. ((x, y), advance 1 l)) e left)
token_loop-answer (suc k) (suc t) b l h ne a =
    let e : l.rx l.pos ≡ 0xff = idle_now l.rx l.pos k b a in
    let f : ((l.rx l.pos == 0xff) && (t != 0)) ≡ true = ground arith in
    let left : t - suc k ≡ suc t - suc (suc k) = omega arith in
    rw f (
      token_loop-answer k t b _ (omega arith) ne (later l.rx l.pos k b a)
      ∙ ap₂ (λ x y. ((b, x), y)) left (advance-one (suc k) l))

receive_block-window :
    (size : ℕ) (l : Line)
    → ((receive_block size l).0 ≡ some (window l.rx l.pos size))
      × ((receive_block size l).1.pos ≡ l.pos + size + 2)
unfolding receive_block
receive_block-window size l =
    rw (read_bytes-window size l)
      (refl, let e : l.pos + size + 1 + 1 ≡ l.pos + size + 2 = omega arith in e)

-- `sdReadBlock` against a card that accepts CMD17 after `k` idle bytes and sends the start token
-- after `j` more: it returns the 512 bytes behind the token and reads two more; where the token
-- comes as the 65535th byte it counts as a timeout.
pub sd_read_block-answer :
    (n k j : ℕ) (l : Line)
    → k < 255
    → j < 65535
    → Answers l.rx l.pos k 0x00
    → Answers l.rx (l.pos + suc k) j 0xfe
    → let r = sd_read_block n l in
      let start = l.pos + suc k + suc j in
      (r.0 ≡ (if j == 65534 then none else some (window l.rx start 512)))
      × (r.1.pos ≡ (if j == 65534 then start else start + 512 + 2))
unfolding sd_read_block read_command read_data_block read_r1_response deassert_cs sd_send_command
sd_read_block-answer n k j l hk hj accepted token =
    let l1 = (sd_send_command 0x51 n 0x01 l).1 in
    let l2 = advance (suc k) l1 in
    let l3 = advance (suc j) l2 in
    rw
      (
        r1_loop-answer k 255 0x00 l1 hk (omega arith) accepted,
        token_loop-answer j 65535 0xfe l2 hj (omega arith) token,
      )
      (elim (Bool-cases (j == 65534)) [
        | inl late ↦
            let t : ((65535 - suc j) == 0) ≡ true = ground arith in rw (late, t) (refl, refl)
        | inr ok ↦
            let t : ((65535 - suc j) == 0) ≡ false = ground arith in
            rw (ok, t) (receive_block-window 512 l3)
      ])
