-- ===== src/Protocol/Responses/Relayed.antt =====
-- internal/protocol/protocol.go: an answer that was read is sent on as it was sent first.
use remote_adapter.Prelude.{
  ℕ, ◌<◌, ◌^◌, ◌≡◌, ◌∙◌, refl, ap, sym, subst, inl, inr, true, false, List, [], ◌∷◌, ◌++◌, Bytes,
  Bool-cases, arith, if◌then◌else◌,
}
use remote_adapter.Prelude.Int.{ℤ, pos, negsuc, is_zero, to_word, Fits}
use remote_adapter.Protocol.Types.{
  Op, op_stat, op_open, op_pread, op_write_file, op_close, op_readdir, op_pwrite, op_create,
  op_unlink, op_mkdir, op_rename, op_setattr, op_server_info, op_other, Response, errno_response,
}
use remote_adapter.Protocol.Frame.{put_u32, write_frame}
use remote_adapter.Protocol.Requests.Relayed.{zero_fits, zero_word, zero_handle}
use remote_adapter.Protocol.Responses.{put_entries, response_fields, write_response}
use remote_adapter.Protocol.Responses.Shape.{pad, answer, answered}
use remote_adapter.Protocol.Responses.Shape as ResponseShape

pad-pad : (ns : List Bytes) (ts : List ℕ) → pad ns (pad ns ts) ≡ pad ns ts
unfolding pad
pad-pad [] ts = refl
pad-pad (n ∷ ns) [] = ap (◌∷◌ 0) (pad-pad ns [])
pad-pad (n ∷ ns) (t ∷ ts) = ap (◌∷◌ t) (pad-pad ns ts)

put_entries-pad : (ns : List Bytes) (ts : List ℕ) → put_entries ns (pad ns ts) ≡ put_entries ns ts
unfolding pad put_entries
put_entries-pad [] ts = refl
put_entries-pad (n ∷ ns) [] = rw (put_entries-pad ns [])
put_entries-pad (n ∷ ns) (t ∷ ts) = rw (put_entries-pad ns ts)

answer-answer : (o : Op) (a : Response) → answer o (answer o a) ≡ answer o a
unfolding answer
answer-answer op_stat a = refl
answer-answer op_open a = refl
answer-answer op_pread a = refl
answer-answer op_write_file a = refl
answer-answer op_close a = refl
answer-answer op_readdir a =
    ap (λ ts. record (errno_response (pos 0)) { names = a.names; types = ts })
      (pad-pad a.names a.types)
answer-answer op_pwrite a = refl
answer-answer op_create a = refl
answer-answer op_unlink a = refl
answer-answer op_mkdir a = refl
answer-answer op_rename a = refl
answer-answer op_setattr a = refl
answer-answer op_server_info a = refl
answer-answer (op_other n) a = refl

answer-success : (o : Op) (a : Response) → is_zero (answer o a).error ≡ true
unfolding answer
answer-success op_stat a = refl
answer-success op_open a = refl
answer-success op_pread a = refl
answer-success op_write_file a = refl
answer-success op_close a = refl
answer-success op_readdir a = refl
answer-success op_pwrite a = refl
answer-success op_create a = refl
answer-success op_unlink a = refl
answer-success op_mkdir a = refl
answer-success op_rename a = refl
answer-success op_setattr a = refl
answer-success op_server_info a = refl
answer-success (op_other n) a = refl

response_fields-answer :
    (o : Op) (a : Response) → response_fields o (answer o a) ≡ response_fields o a
unfolding answer response_fields
response_fields-answer op_stat a = refl
response_fields-answer op_open a = refl
response_fields-answer op_pread a = refl
response_fields-answer op_write_file a = refl
response_fields-answer op_close a = refl
response_fields-answer op_readdir a = rw (put_entries-pad a.names a.types)
response_fields-answer op_pwrite a = refl
response_fields-answer op_create a = refl
response_fields-answer op_unlink a = refl
response_fields-answer op_mkdir a = refl
response_fields-answer op_rename a = refl
response_fields-answer op_setattr a = refl
response_fields-answer op_server_info a = refl
response_fields-answer (op_other n) a = refl

answer-error : (o : Op) (a : Response) → (answer o a).error ≡ pos 0
unfolding answer
answer-error op_stat a = refl
answer-error op_open a = refl
answer-error op_pread a = refl
answer-error op_write_file a = refl
answer-error op_close a = refl
answer-error op_readdir a = refl
answer-error op_pwrite a = refl
answer-error op_create a = refl
answer-error op_unlink a = refl
answer-error op_mkdir a = refl
answer-error op_rename a = refl
answer-error op_setattr a = refl
answer-error op_server_info a = refl
answer-error (op_other n) a = refl

is_zero-pos : (z : ℤ) → is_zero z ≡ true → z ≡ pos 0
is_zero-pos (pos n) e = ap pos (ground arith)
is_zero-pos (negsuc n) e = cc e

-- An answer that was read is the same answer, sent once more.
pub answered-answered : (o : Op) (a : Response) → answered o (answered o a) ≡ answered o a
unfolding answered
answered-answered o a = elim (Bool-cases (is_zero a.error)) [
  | inl good ↦ rw good (rw (answer-success o a) (answer-answer o a))
  | inr bad ↦ rw bad (rw bad refl)
]

-- What `write_response` puts in its frame.
response_body : ℤ → Bytes → Bytes
response_body e fields = put_u32 (to_word (2 ^ 32) e) ++ (if is_zero e then fields else [])

answered_good : (o : Op) (a : Response) → is_zero a.error ≡ true → answered o a ≡ answer o a
unfolding answered
answered_good o a good = simp good

answered_bad :
    (o : Op) (a : Response) → is_zero a.error ≡ false → answered o a ≡ errno_response a.error
unfolding answered
answered_bad o a bad = simp bad

body_bad : (e : ℤ) (xs ys : Bytes) → is_zero e ≡ false → response_body e xs ≡ response_body e ys
unfolding response_body
body_bad e xs ys bad = simp bad

body_good :
    (o : Op) (a : Response)
    → is_zero a.error ≡ true
    → response_body (answer o a).error (response_fields o (answer o a))
      ≡ response_body a.error (response_fields o a)
body_good o a good =
    ap (λ e. response_body e (response_fields o (answer o a)))
      (answer-error o a ∙ sym (is_zero-pos a.error good))
    ∙ ap (response_body a.error) (response_fields-answer o a)

pub write_response-answered :
    (o : Op) (a : Response) → write_response o (answered o a) ≡ write_response o a
unfolding write_response response_body
write_response-answered o a = elim (Bool-cases (is_zero a.error)) [
  | inl good ↦ ap (write_response o) (answered_good o a good) ∙ ap write_frame (body_good o a good)
  | inr bad ↦
      ap (write_response o) (answered_bad o a bad)
      ∙ ap write_frame
          (body_bad a.error (response_fields o (errno_response a.error)) (response_fields o a) bad)
]

pub response_in :
    {a : Response}
    → Fits (2 ^ 31) a.error
    → a.mode < 2 ^ 32
    → Fits (2 ^ 63) a.size
    → a.handle < 2 ^ 64
    → Fits (2 ^ 63) a.mtime
    → ResponseShape.InRange a
response_in e m s h t = record { error = e; mode = m; size = s; handle = h; mtime = t }

abbrev pub no_error : Fits (2 ^ 31) (pos 0)
no_error = omega arith

answer-InRange :
    (o : Op) (a : Response) → ResponseShape.InRange a → ResponseShape.InRange (answer o a)
unfolding answer
answer-InRange op_stat a h = response_in no_error h.mode h.size zero_handle h.mtime
answer-InRange op_open a h = response_in no_error h.mode h.size h.handle h.mtime
answer-InRange op_pread a h = response_in no_error zero_word zero_fits zero_handle zero_fits
answer-InRange op_write_file a h = response_in no_error zero_word zero_fits zero_handle zero_fits
answer-InRange op_close a h = response_in no_error zero_word zero_fits zero_handle zero_fits
answer-InRange op_readdir a h = response_in no_error zero_word zero_fits zero_handle zero_fits
answer-InRange op_pwrite a h = response_in no_error zero_word h.size zero_handle zero_fits
answer-InRange op_create a h = response_in no_error h.mode h.size h.handle h.mtime
answer-InRange op_unlink a h = response_in no_error zero_word zero_fits zero_handle zero_fits
answer-InRange op_mkdir a h = response_in no_error zero_word zero_fits zero_handle zero_fits
answer-InRange op_rename a h = response_in no_error zero_word zero_fits zero_handle zero_fits
answer-InRange op_setattr a h = response_in no_error zero_word zero_fits zero_handle zero_fits
answer-InRange op_server_info a h = response_in no_error zero_word zero_fits zero_handle zero_fits
answer-InRange (op_other n) a h = response_in no_error zero_word zero_fits zero_handle zero_fits

-- An answer that was read has no number out of range where the answer that was sent has none.
pub answered-InRange :
    (o : Op) (a : Response) → ResponseShape.InRange a → ResponseShape.InRange (answered o a)
answered-InRange o a h = elim (Bool-cases (is_zero a.error)) [
  | inl good ↦ subst ResponseShape.InRange (sym (answered_good o a good)) (answer-InRange o a h)
  | inr bad ↦
      subst ResponseShape.InRange (sym (answered_bad o a bad))
        (response_in h.error zero_word zero_fits zero_handle zero_fits)
]
