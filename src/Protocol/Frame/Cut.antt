-- ===== src/Protocol/Frame/Cut.antt =====
-- A frame that is cut off before its end is never read as one.
use remote_adapter.Prelude.{
  ℕ, ◌≤◌, ◌<◌, ◌≡◌, ◌≢◌, ◌⊎◌, ◌∙◌, refl, ap, sym, subst, inl, inr, true, [], ◌∷◌, ◌++◌, Bytes,
  length, ltb, ◌==◌, le→ltb, length-append, arith, Bool-cases,
}
use remote_adapter.Protocol.Types.{Result, ok, err, ◌>>=◌, eof, unexpected_eof, max_frame}
use remote_adapter.Protocol.Frame.{put_u32, read_full, read_frame, write_frame}
use remote_adapter.Protocol.Frame.Laws.{
  length-put_u32, big_endian-put_u32, read_full-append, write_frame_bound,
}

-- The stream ended where more was wanted.
abbrev pub IsCut : {A : Type 0} → Result A → Type 0
IsCut x = (x ≡ err eof) ⊎ (x ≡ err unexpected_eof)

pub then-IsCut : {A B : Type 0} (x : Result A) (f : A → Result B) → IsCut x → IsCut (x >>= f)
then-IsCut x f (inl e) = inl (ap (λ y. y >>= f) e)
then-IsCut x f (inr e) = inr (ap (λ y. y >>= f) e)

read_full-IsCut : (n : ℕ) (s : Bytes) → length s < n → IsCut (read_full n s)
unfolding read_full
read_full-IsCut n s short = elim (Bool-cases (length s == 0)) [
  | inl none_left ↦ inl (rw (is_less, none_left) refl)
  | inr some_left ↦ inr (rw (is_less, some_left) refl)
]
  where
    is_less : ltb (length s) n ≡ true
    is_less = ground arith

-- What starts two ways is cut inside the first part, or behind it.
append_split :
    (a p : Bytes) {b q : Bytes}
    → p ++ q ≡ a ++ b
    → (length p < length a) ⊎ ((r : Bytes) × (p ≡ a ++ r) × (r ++ q ≡ b))
append_split [] p e = inr (p, refl, e)
append_split (x ∷ a) [] e = inl (omega arith)
append_split (x ∷ a) (y ∷ p) {b} {q} e = elim (append_split a p (tail_of e)) [
  | inl less ↦ inl (omega arith)
  | inr (r, f, g) ↦ inr (r, cc (f, head_of e), g)
]
  where
    tail_of : {u v : Bytes} → y ∷ u ≡ x ∷ v → u ≡ v
    tail_of e = cc e

    head_of : {u v : Bytes} → y ∷ u ≡ x ∷ v → y ≡ x
    head_of e = cc e

pub some_bytes : (q : Bytes) → q ≢ [] → 1 ≤ length q
some_bytes [] ne = absurd (ne refl)
some_bytes (c ∷ q) ne = omega arith

-- Behind the header the frame is read as far as it is there.
read_frame_body : (n : ℕ) (r : Bytes) → n ≤ max_frame → read_frame (put_u32 n ++ r) ≡ read_full n r
unfolding read_frame
read_frame_body n r le =
    rw (read_full-append 4 (put_u32 n) r (length-put_u32 n))
      (rw (big_endian-put_u32 n (omega arith)) (rw (le→ltb max_frame n le) refl))

-- A part of a frame that lacks its end is refused as cut.
pub read_frame-IsCut :
    (body wire p q : Bytes)
    → write_frame body ≡ ok wire
    → p ++ q ≡ wire
    → q ≢ []
    → IsCut (read_frame p)
read_frame-IsCut body wire p q e parts more =
    let (le, w) = write_frame_bound body wire e in
    elim (append_split (put_u32 (length body)) p (parts ∙ w)) [
      | inl short ↦
          unfold read_frame in
          then-IsCut (read_full 4 p) _
            (read_full-IsCut 4 p (omega (arith, length-put_u32 (length body))))
      | inr (r, f, g) ↦
          subst (λ x. IsCut (read_frame x)) (sym f)
            (subst IsCut (sym (read_frame_body (length body) r le)) (
              read_full-IsCut (length body) r
                (omega (arith, some_bytes q more, length-append r q, ap length g))))
    ]
