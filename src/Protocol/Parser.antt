-- ===== src/Protocol/Parser.antt =====
-- internal/protocol/protocol.go: the body parser, whose first failure sticks.
pub mod Laws
use remote_adapter.Prelude.{
  ℕ, suc, ◌+◌, ◌%◌, ◌^◌, Bool, ◌||◌, Option, none, some, List, [], ◌∷◌, ◌++◌, Bytes, length, take,
  drop, is_some, ltb, if◌then◌else◌,
}
use remote_adapter.Prelude.Int.{ℤ, of_word}
use remote_adapter.Protocol.Types.{Error, short_u8, short_u32, short_u64, short_bytes}
use remote_adapter.Protocol.Frame.{put_u32, put_u64, big_endian}

pub record Parser : Type 0 where
  pub rest : Bytes
  pub failure : Option Error

abbrev pub start : Bytes → Parser
start body = record { rest = body; failure = none }

-- A method of `*parser`: its result and the parser behind it.
abbrev pub P {ℓ} : Type ℓ → Type ℓ
P A = Parser → A × Parser

infixl 5 ◌>>=◌
abbrev pub ◌>>=◌ {ℓ κ} : {A : Type ℓ} {B : Type κ} → P A → (A → P B) → P B
◌>>=◌ m f p = let (a, q) = m p in f a q

abbrev pub ret {ℓ} : {A : Type ℓ} → A → P A
ret a p = (a, p)

-- Only the first failure is kept.
abbrev pub fail : Error → Parser → Parser
fail e p = record p { failure = elim p.failure [ none ↦ some e | some first ↦ some first ] }

-- The guard that the readers share, with `d` for the result of a failed read.
unfoldable pub read {ℓ} : {A : Type ℓ} → ℕ → Error → A → (Bytes → A) → P A
read n e d decode p =
    if is_some p.failure || ltb (length p.rest) n
    then (d, fail e p)
    else (decode (take n p.rest), record p { rest = drop n p.rest })

unfoldable pub u8 : P ℕ
u8 = read 1 short_u8 0 (big_endian 0)

unfoldable pub u32 : P ℕ
u32 = read 4 short_u32 0 (big_endian 0)

unfoldable pub u64 : P ℕ
u64 = read 8 short_u64 0 (big_endian 0)

unfoldable pub i32 : P ℤ
i32 = do v ← u32; ret (of_word (2 ^ 32) (2 ^ 31) v)

unfoldable pub i64 : P ℤ
i64 = do v ← u64; ret (of_word (2 ^ 64) (2 ^ 63) v)

-- What is left to parse; nothing once a read has failed.
unfoldable pub left : Parser → ℕ
left p = if is_some p.failure then 0 else length p.rest

unfoldable pub bytes : P Bytes
bytes = do
  n ← u32
  λ p.
      if is_some p.failure || ltb (length p.rest % 2 ^ 32) n
      then ([], fail short_bytes p)
      else (take n p.rest, record p { rest = drop n p.rest })

-- `builder.bytes` and `builder.str`: what they append.
unfoldable pub put_bytes : Bytes → Bytes
put_bytes v = put_u32 (length v % 2 ^ 32) ++ v
