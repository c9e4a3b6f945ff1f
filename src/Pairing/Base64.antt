-- ===== src/Pairing/Base64.antt =====
-- encoding/base64: RawURLEncoding.
use remote_adapter.Prelude.{
  ℕ, ◌+◌, ◌-◌, ◌*◌, ◌/◌, ◌%◌, ◌≤◌, ◌<◌, ◌≡◌, refl, ap, false, ◌&&◌, ◌||◌, Option, none, some, List,
  [], ◌∷◌, Bytes, All, ltb, leb, ◌==◌, if◌then◌else◌, arith,
}
use remote_adapter.Pairing.Uvarint.{IsByte}

-- A digit of the URL alphabet for a number below 64.
unfoldable pub digit : ℕ → ℕ
digit n =
    if ltb n 26
    then n + 65
    else if ltb n 52
    then n + 71
    else if ltb n 62
    then n - 4
    else if n == 62
    then b'-'
    else b'_'

unfoldable pub value : ℕ → Option ℕ
value c =
    if leb 65 c && leb c 90
    then some (c - 65)
    else if leb 97 c && leb c 122
    then some (c - 71)
    else if leb 48 c && leb c 57
    then some (c + 4)
    else if c == b'-'
    then some 62
    else if c == b'_'
    then some 63
    else none

unfoldable pub encode : Bytes → Bytes
encode [] = []
encode (a ∷ []) = digit (a / 4) ∷ digit (a % 4 * 16) ∷ []
encode (a ∷ b ∷ []) = digit (a / 4) ∷ digit (a % 4 * 16 + b / 16) ∷ digit (b % 16 * 4) ∷ []
encode (a ∷ b ∷ c ∷ s) =
    digit (a / 4)
    ∷ digit (a % 4 * 16 + b / 16)
    ∷ digit (b % 16 * 4 + c / 64)
    ∷ digit (c % 64)
    ∷ encode s

-- The values of the digits; line ends are skipped, and any other byte is an error.
abbrev pub consed : Option ℕ → Option (List ℕ) → Option (List ℕ)
consed (some v) (some vs) = some (v ∷ vs)
consed _ _ = none

unfoldable pub values : Bytes → Option (List ℕ)
values [] = some []
values (c ∷ s) = let rest = values s in if c == 10 || c == 13 then rest else consed (value c) rest

-- Four digits are three bytes; the bits left over at the end are dropped, and one digit alone is an
-- error.
abbrev pub joined : ℕ → ℕ → ℕ → ℕ → Option Bytes → Option Bytes
joined p q r t (some s) = some ((p * 4 + q / 16) ∷ (q % 16 * 16 + r / 4) ∷ (r % 4 * 64 + t) ∷ s)
joined p q r t none = none

unfoldable pub bytes_of : List ℕ → Option Bytes
bytes_of [] = some []
bytes_of (p ∷ []) = none
bytes_of (p ∷ q ∷ []) = some ((p * 4 + q / 16) ∷ [])
bytes_of (p ∷ q ∷ r ∷ []) = some ((p * 4 + q / 16) ∷ (q % 16 * 16 + r / 4) ∷ [])
bytes_of (p ∷ q ∷ r ∷ t ∷ vs) = joined p q r t (bytes_of vs)

abbrev pub from_values : Option (List ℕ) → Option Bytes
from_values none = none
from_values (some vs) = bytes_of vs

unfoldable pub decode : Bytes → Option Bytes
unfolding values
decode s = from_values (values s)

value-digit : (n : ℕ) → n < 64 → value (digit n) ≡ some n
unfolding value digit
value-digit n h = ground arith

-- A digit is no white space.
pub digit_dense : (n : ℕ) → n < 64 → 45 ≤ digit n
unfolding digit
digit_dense n h = ground arith

values-digit :
    (n : ℕ) (s : Bytes) {vs : List ℕ}
    → n < 64
    → values s ≡ some vs
    → values (digit n ∷ s) ≡ some (n ∷ vs)
unfolding values
values-digit n s h e = rw (no_line_end, value-digit n h, e) refl
  where
    no_line_end : (digit n == 10 || digit n == 13) ≡ false
    no_line_end = ground (arith, digit_dense n h)

-- The numbers whose digits `encode` writes.
abbrev sextets : Bytes → List ℕ
sextets [] = []
sextets (a ∷ []) = (a / 4) ∷ (a % 4 * 16) ∷ []
sextets (a ∷ b ∷ []) = (a / 4) ∷ (a % 4 * 16 + b / 16) ∷ (b % 16 * 4) ∷ []
sextets (a ∷ b ∷ c ∷ s) =
    (a / 4) ∷ (a % 4 * 16 + b / 16) ∷ (b % 16 * 4 + c / 64) ∷ (c % 64) ∷ sextets s

values-encode : (s : Bytes) → All IsByte s → values (encode s) ≡ some (sextets s)
unfolding encode
values-encode [] h = unfold values in refl
values-encode (a ∷ []) h =
    values-digit (a / 4) _ (omega (arith, h.0))
      (values-digit (a % 4 * 16) [] (omega arith) (unfold values in refl))
values-encode (a ∷ b ∷ []) h = values-digit (a / 4) _ (omega (arith, h.0)) (
    values-digit (a % 4 * 16 + b / 16) _ (omega (arith, h.1.0))
      (values-digit (b % 16 * 4) [] (omega arith) (unfold values in refl)))
values-encode (a ∷ b ∷ c ∷ s) h = values-digit (a / 4) _ (omega (arith, h.0)) (
    values-digit (a % 4 * 16 + b / 16) _ (omega (arith, h.1.0)) (
      values-digit (b % 16 * 4 + c / 64) _ (omega (arith, h.1.1.0))
        (values-digit (c % 64) (encode s) (omega arith) (values-encode s h.1.1.1))))

-- Three bytes out of their four digits.
pub three :
    (a b c : ℕ)
    → a < 256
    → b < 256
    → c < 256
    → (a / 4 * 4 + (a % 4 * 16 + b / 16) / 16 ≡ a)
      × ((a % 4 * 16 + b / 16) % 16 * 16 + (b % 16 * 4 + c / 64) / 4 ≡ b)
      × ((b % 16 * 4 + c / 64) % 4 * 64 + c % 64 ≡ c)
three a b c p q r = (omega arith, omega arith, omega arith)

pub two :
    (a b : ℕ)
    → a < 256
    → b < 256
    → (a / 4 * 4 + (a % 4 * 16 + b / 16) / 16 ≡ a)
      × ((a % 4 * 16 + b / 16) % 16 * 16 + b % 16 * 4 / 4 ≡ b)
two a b p q = (omega arith, omega arith)

bytes_of-sextets : (s : Bytes) → All IsByte s → bytes_of (sextets s) ≡ some s
unfolding bytes_of
bytes_of-sextets [] h = refl
bytes_of-sextets (a ∷ []) h = ap (λ x. some (x ∷ [])) (omega (arith, h.0))
bytes_of-sextets (a ∷ b ∷ []) h = let (x, y) = two a b h.0 h.1.0 in cc (x, y)
bytes_of-sextets (a ∷ b ∷ c ∷ s) h =
    let (x, y, z) = three a b c h.0 h.1.0 h.1.1.0 in rw (bytes_of-sextets s h.1.1.1) (cc (x, y, z))

-- What is encoded is read back.
pub decode-encode : (s : Bytes) → All IsByte s → decode (encode s) ≡ some s
unfolding decode
decode-encode s h = rw (values-encode s h) (bytes_of-sextets s h)

-- Nothing but digits is written, and a digit is above every white space.
pub encode_dense : (s : Bytes) → All IsByte s → All (◌≤◌ 45) (encode s)
unfolding encode
encode_dense [] h = tt
encode_dense (a ∷ []) h =
    (digit_dense (a / 4) (omega (arith, h.0)), (digit_dense (a % 4 * 16) (omega arith), tt))
encode_dense (a ∷ b ∷ []) h = (
  digit_dense (a / 4) (omega (arith, h.0)),
  (
    digit_dense (a % 4 * 16 + b / 16) (omega (arith, h.1.0)),
    (digit_dense (b % 16 * 4) (omega arith), tt),
  ),
)
encode_dense (a ∷ b ∷ c ∷ s) h = (
  digit_dense (a / 4) (omega (arith, h.0)),
  (
    digit_dense (a % 4 * 16 + b / 16) (omega (arith, h.1.0)),
    (
      digit_dense (b % 16 * 4 + c / 64) (omega (arith, h.1.1.0)),
      (digit_dense (c % 64) (omega arith), encode_dense s h.1.1.1),
    ),
  ),
)
