-- ===== src/Protocol/Requests/Consumes.antt =====
-- Reading a request takes bytes off the stream.
use remote_adapter.Prelude.{
  ℕ, zero, suc, ◌≤◌, ◌<◌, ◌≡◌, refl, ap, [], ◌∷◌, Bytes, length, drop, ltb, ◌==◌, arith, Bool-cases,
  inl, inr,
}
use remote_adapter.Protocol.Types.{Result, ok, err, Request, max_frame}
use remote_adapter.Protocol.Frame.{read_full, read_frame, big_endian}
use remote_adapter.Protocol.Requests.{read_request, parse_request}

length-drop : (n : ℕ) (s : Bytes) → length (drop n s) ≤ length s
length-drop zero s = omega arith
length-drop (suc n) [] = omega arith
length-drop (suc n) (c ∷ s) = omega (arith, length-drop n s)

same_rest :
    {A : Type 0} {a a' : A} {s s' : Bytes}
    → ◌≡◌ {A = Result (A × Bytes)} (ok (a, s)) (ok (a', s'))
    → s ≡ s'
same_rest e = cc

read_full-le : (n : ℕ) (s b rest : Bytes) → read_full n s ≡ ok (b, rest) → length rest ≤ length s
unfolding read_full
read_full-le n s b rest e = elim (Bool-cases (ltb (length s) n)) [
  | inl short ↦ elim (Bool-cases (length s == 0)) [
    | inl none_left ↦ cc (rw (short, none_left) at e)
    | inr some_left ↦ cc (rw (short, some_left) at e)
  ]
  | inr enough ↦ omega (arith, length-drop n s, ap length (same_rest (rw enough at e)))
]

header-lt : (s b rest : Bytes) → read_full 4 s ≡ ok (b, rest) → length rest < length s
unfolding read_full
header-lt [] b rest e = cc
header-lt (c ∷ s) b rest e = elim (Bool-cases (ltb (length (c ∷ s)) 4)) [
  | inl short ↦ elim (Bool-cases (length (c ∷ s) == 0)) [
    | inl none_left ↦ cc (rw (short, none_left) at e)
    | inr some_left ↦ cc (rw (short, some_left) at e)
  ]
  | inr enough ↦ omega (arith, length-drop 3 s, ap length (same_rest (rw enough at e)))
]

read_frame-lt : (s b rest : Bytes) → read_frame s ≡ ok (b, rest) → length rest < length s
unfolding read_frame
read_frame-lt s b rest e = go (read_full 4 s) refl
  where
    go : (h : Result (Bytes × Bytes)) → read_full 4 s ≡ h → length rest < length s
    go (err x) h = cc (rw h at e)
    go (ok (hdr, s')) h = elim (Bool-cases (ltb max_frame (big_endian 0 hdr))) [
      | inl big ↦ cc (rw (h, big) at e)
      | inr fits ↦ omega (
        arith,
        header-lt s hdr s' h,
        read_full-le (big_endian 0 hdr) s' b rest (rw (h, fits) at e),
      )
    ]

-- A request that was read leaves less of the stream than there was.
pub read_request-lt :
    (s rest : Bytes) (r : Request) → read_request s ≡ ok (r, rest) → length rest < length s
unfolding read_request
read_request-lt s rest r e = go (read_frame s) refl
  where
    go : (f : Result (Bytes × Bytes)) → read_frame s ≡ f → length rest < length s
    go (err x) f = cc (rw f at e)
    go (ok (frame, s')) f = parse (parse_request frame) refl
      where
        parse : (p : Result Request) → parse_request frame ≡ p → length rest < length s
        parse (err x) p = cc (rw (f, p) at e)
        parse (ok q) p =
            omega (arith, read_frame-lt s frame s' f, ap length (same_rest (rw (f, p) at e)))
