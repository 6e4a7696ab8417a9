-- ===== src/Sse/Frames.antt =====
-- How the parser's loop cuts its buffer into frames.
use your_stack.Common.{
  ℕ, zero, suc, ◌+◌, ◌≤◌, ◌≡◌, refl, sym, ◌∙◌, ap, none, some, [], ◌∷◌, length, arith, Option-cases,
  inl, inr,
}
use your_stack.Common.Text.{Text}
use your_stack.Sse.Parser.{split_frame, parse_frame, emit, drain}

-- A frame and its blank line are taken off the buffer.
pub split_frame-length :
    (b frame rest : Text) → split_frame b ≡ some (frame, rest) → length rest + 2 ≤ length b
unfolding split_frame
split_frame-length [] frame rest e = ground arith
split_frame-length (c ∷ []) frame rest e = ground (arith, e)
split_frame-length (c ∷ d ∷ s) frame rest e = elim (Option-cases (split_frame (d ∷ s))) [
  | inl n ↦ ground (arith, e, n)
  | inr (p, n) ↦ ground (arith, e, n, split_frame-length (d ∷ s) p.0 p.1)
]

pub drain-none : (n : ℕ) (b : Text) → split_frame b ≡ none → drain n b ≡ ([], b)
unfolding drain
drain-none zero b e = refl
drain-none (suc n) b e = rw (e, drain) refl

pub drain-some :
    (n : ℕ) (b frame rest : Text)
    → split_frame b ≡ some (frame, rest)
    → drain (suc n) b ≡ (emit (parse_frame frame) (drain n rest).0, (drain n rest).1)
unfolding drain
drain-some n b frame rest e = rw (e, drain) refl

split_frame_nil : split_frame [] ≡ none
unfolding split_frame
split_frame_nil = refl

-- With as much fuel as the buffer is long, more fuel changes nothing.
pub drain-fuel : (n m : ℕ) (b : Text) → length b ≤ n → length b ≤ m → drain n b ≡ drain m b
drain-fuel zero m [] hn hm =
    drain-none zero [] split_frame_nil ∙ sym (drain-none m [] split_frame_nil)
drain-fuel zero m (c ∷ b) hn hm = absurd (omega (arith, hn))
drain-fuel (suc n) zero [] hn hm =
    drain-none (suc n) [] split_frame_nil ∙ sym (drain-none zero [] split_frame_nil)
drain-fuel (suc n) zero (c ∷ b) hn hm = absurd (omega (arith, hm))
drain-fuel (suc n) (suc m) b hn hm = elim (Option-cases (split_frame b)) [
  | inl e ↦ drain-none (suc n) b e ∙ sym (drain-none (suc m) b e)
  | inr ((frame, rest), e) ↦
      let short = split_frame-length b frame rest e in
      let same = drain-fuel n m rest (omega (arith, hn, short)) (omega (arith, hm, short)) in
      drain-some n b frame rest e
      ∙ ap (λ r. (emit (parse_frame frame) r.0, r.1)) same
      ∙ sym (drain-some m b frame rest e)
]

-- With fuel for each character of the buffer the loop ends by its test: what is left of the buffer
-- holds no blank line.
pub drain-left : (n : ℕ) (b : Text) → length b ≤ n → split_frame (drain n b).1 ≡ none
drain-left zero [] h = rw (drain-none zero [] split_frame_nil) split_frame_nil
drain-left zero (c ∷ b) h = absurd (omega (arith, h))
drain-left (suc n) b h = elim (Option-cases (split_frame b)) [
  | inl e ↦ rw (drain-none (suc n) b e) e
  | inr ((frame, rest), e) ↦
      rw (drain-some n b frame rest e)
        (drain-left n rest (omega (arith, h, split_frame-length b frame rest e)))
]
