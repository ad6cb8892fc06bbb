-- ===== src/Sd/Receive.antt =====
-- What the loops of the driver read, and how they leave the line.
use open_gpos.Base.{
  ℕ, zero, suc, ◌+◌, ◌≡◌, refl, sym, List, [], ◌∷◌, ◌++◌, ap, ap₂, arith, ◌∙◌, replicate, take,
  drop, ◌≤◌, ◌-◌,
}
use open_gpos.Sd.Line.{Line, Event, sent}
use open_gpos.Sd.{read_bytes, discard}

-- the `n` bytes of the answer from `i` on
abbrev pub window : (ℕ → ℕ) → ℕ → ℕ → List ℕ
window rx i zero = []
window rx i (suc n) = rx i ∷ window rx (i + 1) n

-- the line when `n` more bytes are read, each with a dummy byte sent
abbrev pub advance : ℕ → Line → Line
advance n l = record l { pos = l.pos + n; events = replicate n (sent 0xff) ++ l.events }

replicate-append_comm :
    {A : Type 0} (n : ℕ) (a : A) (xs : List A)
    → replicate n a ++ (a ∷ xs) ≡ a ∷ (replicate n a ++ xs)
replicate-append_comm zero a xs = refl
replicate-append_comm (suc n) a xs = ap (λ t. a ∷ t) (replicate-append_comm n a xs)

line_eq :
    (rx : ℕ → ℕ) {i j : ℕ} {es fs : List Event}
    → i ≡ j
    → es ≡ fs
    → ◌≡◌ {A = Line}
        (record { rx = rx; pos = i; events = es })
        (record { rx = rx; pos = j; events = fs })
line_eq rx p q = λ k. record { rx = rx; pos = p k; events = q k }

pub advance-one :
    (n : ℕ) (l : Line)
    → advance n (record l { pos = l.pos + 1; events = sent 0xff ∷ l.events }) ≡ advance (suc n) l
advance-one n l = line_eq l.rx (omega arith) (replicate-append_comm n (sent 0xff) l.events)

advance-zero : (l : Line) → advance 0 l ≡ l
advance-zero l = line_eq l.rx (omega arith) refl

replicate-add :
    {A : Type 0} (n m : ℕ) (a : A) (xs : List A)
    → replicate n a ++ (replicate m a ++ xs) ≡ replicate (m + n) a ++ xs
replicate-add n zero a xs = ap (λ (k : ℕ). replicate k a ++ xs) (omega arith)
replicate-add n (suc m) a xs =
    replicate-append_comm n a (replicate m a ++ xs)
    ∙ ap (λ t. a ∷ t) (replicate-add n m a xs)
    ∙ ap (λ (k : ℕ). replicate k a ++ xs) (let e : suc (m + n) ≡ suc m + n = omega arith in e)

pub advance-advance : (n m : ℕ) (l : Line) → advance n (advance m l) ≡ advance (m + n) l
advance-advance n m l = line_eq l.rx (omega arith) (replicate-add n m (sent 0xff) l.events)

-- `read_bytes` returns the next bytes of the answer.
pub read_bytes-window : (n : ℕ) (l : Line) → read_bytes n l ≡ (window l.rx l.pos n, advance n l)
unfolding read_bytes
read_bytes-window zero l = ap (λ k. ([], k)) (sym (advance-zero l))
read_bytes-window (suc n) l =
    let l' : Line = record l { pos = l.pos + 1; events = sent 0xff ∷ l.events } in
    ap (λ r. (l.rx l.pos ∷ r.0, r.1)) (read_bytes-window n l')
    ∙ ap (λ k. (l.rx l.pos ∷ window l.rx (l.pos + 1) n, k)) (advance-one n l)

pub discard-advance : (n : ℕ) (l : Line) → discard n l ≡ (tt, advance n l)
unfolding discard
discard-advance zero l = ap (λ k. (tt, k)) (sym (advance-zero l))
discard-advance (suc n) l =
    let l' : Line = record l { pos = l.pos + 1; events = sent 0xff ∷ l.events } in
    discard-advance n l' ∙ ap (λ k. (tt, k)) (advance-one n l)

pub drop-window : (rx : ℕ → ℕ) (i k n : ℕ) → drop k (window rx i (k + n)) ≡ window rx (i + k) n
drop-window rx i zero n = ap₂ (λ j m. window rx j m) (omega arith) (omega arith)
drop-window rx i (suc k) n =
    let e : suc k + n ≡ suc (k + n) = omega arith in
    let f : i + 1 + k ≡ i + suc k = omega arith in
    ap (λ m. drop (suc k) (window rx i m)) e
    ∙ drop-window rx (i + 1) k n
    ∙ ap (λ j. window rx j n) f

pub take-window : (rx : ℕ → ℕ) (i k n : ℕ) → take k (window rx i (k + n)) ≡ window rx i k
take-window rx i zero n = refl
take-window rx i (suc k) n =
    let e : suc k + n ≡ suc (k + n) = omega arith in
    ap (λ m. take (suc k) (window rx i m)) e ∙ ap (λ t. rx i ∷ t) (take-window rx (i + 1) k n)

-- Cutting bytes out of a part of the answer.
pub take-drop-window :
    (rx : ℕ → ℕ) (i s c n : ℕ) → s + c ≤ n → take c (drop s (window rx i n)) ≡ window rx (i + s) c
take-drop-window rx i s c n h =
    let e : n ≡ s + (c + (n - s - c)) = omega arith in
    ap (λ m. take c (drop s (window rx i m))) e
    ∙ ap (take c) (drop-window rx i s (c + (n - s - c)))
    ∙ take-window rx (i + s) c (n - s - c)
