-- ===== src/Subprocess/Interleaving.antt =====
-- Sequences that reach one stream in some order, as the goroutines behind a mutex of
-- internal/executor/exec.go and cmd/rca/spawnproxy.go write to it.
use remote_adapter.Prelude.{List, [], ◌∷◌, ◌++◌, Bytes}

-- The third sequence has all of the first two, each in its own order.
pub data Interleaved {A : Type 0} : List A → List A → List A → Type 0 where
  none_left : Interleaved [] [] []
  from_left : {c : A} {xs ys zs : List A} → Interleaved xs ys zs → Interleaved (c ∷ xs) ys (c ∷ zs)
  from_right : {c : A} {xs ys zs : List A} → Interleaved xs ys zs → Interleaved xs (c ∷ ys) (c ∷ zs)

unfoldable pub concat : List Bytes → Bytes
concat [] = []
concat (b ∷ bs) = b ++ concat bs
