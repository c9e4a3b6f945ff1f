-- ===== src/Pairing/StdBase64.antt =====
-- encoding/base64: StdEncoding, whose last quantum is padded with '='.
use remote_adapter.Prelude.{
  ℕ, ◌+◌, ◌-◌, ◌*◌, ◌/◌, ◌%◌, ◌<◌, ◌≡◌, ◌∙◌, refl, ap, false, ◌&&◌, ◌||◌, Option, none, some, [],
  ◌∷◌, Bytes, All, ltb, leb, ◌==◌, if◌then◌else◌, arith,
}
use remote_adapter.Prelude.FilePath.{is_empty}
use remote_adapter.Pairing.Uvarint.{IsByte}
use remote_adapter.Pairing.Base64.{joined, two, three}

-- A digit of the standard alphabet for a number below 64.
unfoldable pub std_digit : ℕ → ℕ
std_digit n =
    if ltb n 26
    then n + 65
    else if ltb n 52
    then n + 71
    else if ltb n 62
    then n - 4
    else if n == 62
    then b'+'
    else b'/'

unfoldable pub std_value : ℕ → Option ℕ
std_value c =
    if leb 65 c && leb c 90
    then some (c - 65)
    else if leb 97 c && leb c 122
    then some (c - 71)
    else if leb 48 c && leb c 57
    then some (c + 4)
    else if c == b'+'
    then some 62
    else if c == b'/'
    then some 63
    else none

unfoldable pub std_encode : Bytes → Bytes
std_encode [] = []
std_encode (a ∷ []) = std_digit (a / 4) ∷ std_digit (a % 4 * 16) ∷ b'=' ∷ b'=' ∷ []
std_encode (a ∷ b ∷ []) =
    std_digit (a / 4) ∷ std_digit (a % 4 * 16 + b / 16) ∷ std_digit (b % 16 * 4) ∷ b'=' ∷ []
std_encode (a ∷ b ∷ c ∷ s) =
    std_digit (a / 4)
    ∷ std_digit (a % 4 * 16 + b / 16)
    ∷ std_digit (b % 16 * 4 + c / 64)
    ∷ std_digit (c % 64)
    ∷ std_encode s

-- Line ends are skipped wherever they stand.
unfoldable pub without_line_ends : Bytes → Bytes
without_line_ends [] = []
without_line_ends (c ∷ s) =
    let rest = without_line_ends s in if c == 10 || c == 13 then rest else c ∷ rest

-- The bytes of a quantum of two, three or four digits; the bits left over are dropped.
abbrev pub one_byte : Option ℕ → Option ℕ → Option Bytes
one_byte (some p) (some q) = some ((p * 4 + q / 16) ∷ [])
one_byte _ _ = none

abbrev pub two_bytes : Option ℕ → Option ℕ → Option ℕ → Option Bytes
two_bytes (some p) (some q) (some r) = some ((p * 4 + q / 16) ∷ (q % 16 * 16 + r / 4) ∷ [])
two_bytes _ _ _ = none

abbrev pub three_bytes : Option ℕ → Option ℕ → Option ℕ → Option ℕ → Option Bytes → Option Bytes
three_bytes (some p) (some q) (some r) (some t) rest = joined p q r t rest
three_bytes _ _ _ _ rest = none

-- Padding stands at the end of the last quantum and nowhere else.
unfoldable pub quanta : Bytes → Option Bytes
unfolding std_value
quanta [] = some []
quanta (a ∷ b ∷ c ∷ d ∷ s) =
    let rest = quanta s in
    if c == b'='
    then (if d == b'=' && is_empty s then one_byte (std_value a) (std_value b) else none)
    else if d == b'='
    then (if is_empty s then two_bytes (std_value a) (std_value b) (std_value c) else none)
    else three_bytes (std_value a) (std_value b) (std_value c) (std_value d) rest
quanta _ = none

unfoldable pub std_decode : Bytes → Option Bytes
unfolding without_line_ends quanta
std_decode s = quanta (without_line_ends s)

std_value-std_digit : (n : ℕ) → n < 64 → std_value (std_digit n) ≡ some n
unfolding std_value std_digit
std_value-std_digit n h = ground arith

no_line_end : (n : ℕ) → n < 64 → (std_digit n == 10 || std_digit n == 13) ≡ false
unfolding std_digit
no_line_end n h = ground arith

no_padding : (n : ℕ) → n < 64 → (std_digit n == b'=') ≡ false
unfolding std_digit
no_padding n h = ground arith

keeps_digit :
    (n : ℕ) (s : Bytes) {t : Bytes}
    → n < 64
    → without_line_ends s ≡ t
    → without_line_ends (std_digit n ∷ s) ≡ std_digit n ∷ t
unfolding without_line_ends
keeps_digit n s h e = rw (no_line_end n h, e) refl

without_line_ends-std_encode :
    (s : Bytes) → All IsByte s → without_line_ends (std_encode s) ≡ std_encode s
unfolding std_encode
without_line_ends-std_encode [] h = unfold without_line_ends in refl
without_line_ends-std_encode (a ∷ []) h =
    keeps_digit (a / 4) _ (omega (arith, h.0))
      (keeps_digit (a % 4 * 16) _ (omega arith) (unfold without_line_ends in refl))
without_line_ends-std_encode (a ∷ b ∷ []) h = keeps_digit (a / 4) _ (omega (arith, h.0)) (
    keeps_digit (a % 4 * 16 + b / 16) _ (omega (arith, h.1.0))
      (keeps_digit (b % 16 * 4) _ (omega arith) (unfold without_line_ends in refl)))
without_line_ends-std_encode (a ∷ b ∷ c ∷ s) h = keeps_digit (a / 4) _ (omega (arith, h.0)) (
    keeps_digit (a % 4 * 16 + b / 16) _ (omega (arith, h.1.0)) (
      keeps_digit (b % 16 * 4 + c / 64) _ (omega (arith, h.1.1.0))
        (keeps_digit (c % 64) _ (omega arith) (without_line_ends-std_encode s h.1.1.1))))

quanta-four :
    (p q r t : ℕ) (s : Bytes) {u : Bytes}
    → p < 64
    → q < 64
    → r < 64
    → t < 64
    → quanta s ≡ some u
    → quanta (std_digit p ∷ std_digit q ∷ std_digit r ∷ std_digit t ∷ s) ≡ joined p q r t (some u)
unfolding quanta
quanta-four p q r t s i j k l e =
    rw
      (
        no_padding r k,
        no_padding t l,
        std_value-std_digit p i,
        std_value-std_digit q j,
        std_value-std_digit r k,
        std_value-std_digit t l,
        e,
      )
      refl

quanta-three :
    (p q r : ℕ)
    → p < 64
    → q < 64
    → r < 64
    → quanta (std_digit p ∷ std_digit q ∷ std_digit r ∷ b'=' ∷ [])
      ≡ some ((p * 4 + q / 16) ∷ (q % 16 * 16 + r / 4) ∷ [])
unfolding quanta
quanta-three p q r i j k =
    rw (no_padding r k, std_value-std_digit p i, std_value-std_digit q j, std_value-std_digit r k)
      refl

quanta-two :
    (p q : ℕ)
    → p < 64
    → q < 64
    → quanta (std_digit p ∷ std_digit q ∷ b'=' ∷ b'=' ∷ []) ≡ some ((p * 4 + q / 16) ∷ [])
unfolding quanta
quanta-two p q i j = rw (std_value-std_digit p i, std_value-std_digit q j) refl

quanta-std_encode : (s : Bytes) → All IsByte s → quanta (std_encode s) ≡ some s
unfolding std_encode
quanta-std_encode [] h = unfold quanta in refl
quanta-std_encode (a ∷ []) h =
    quanta-two (a / 4) (a % 4 * 16) (omega (arith, h.0)) (omega arith)
    ∙ ap (λ x. some (x ∷ [])) (omega (arith, h.0))
quanta-std_encode (a ∷ b ∷ []) h =
    let (x, y) = two a b h.0 h.1.0 in
    quanta-three (a / 4) (a % 4 * 16 + b / 16) (b % 16 * 4) (omega (arith, h.0))
      (omega (arith, h.1.0)) (omega arith)
    ∙ cc (x, y)
quanta-std_encode (a ∷ b ∷ c ∷ s) h =
    let (x, y, z) = three a b c h.0 h.1.0 h.1.1.0 in
    quanta-four (a / 4) (a % 4 * 16 + b / 16) (b % 16 * 4 + c / 64) (c % 64) (std_encode s)
      (omega (arith, h.0)) (omega (arith, h.1.0)) (omega (arith, h.1.1.0)) (omega arith)
      (quanta-std_encode s h.1.1.1)
    ∙ cc (x, y, z)

-- What is encoded is read back.
pub std_decode-std_encode : (s : Bytes) → All IsByte s → std_decode (std_encode s) ≡ some s
unfolding std_decode
std_decode-std_encode s h = ap quanta (without_line_ends-std_encode s h) ∙ quanta-std_encode s h
