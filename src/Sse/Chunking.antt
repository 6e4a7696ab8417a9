-- ===== src/Sse/Chunking.antt =====
-- The events that a response gives do not depend on how it is cut into chunks.
use mathlib.Core.List.{append-nil, append_assoc}
use your_stack.Common.{
  ℕ, zero, suc, ◌≤◌, ◌≡◌, refl, sym, ◌∙◌, ap, subst, Option, none, some, List, [], ◌∷◌, ◌++◌, ◌==◌,
  ◌&&◌, length, arith, Bool-cases, Option-cases, inl, inr,
}
use your_stack.Common.Text.{Text}
use your_stack.Sse.Parser.{
  SseEvent, lf, cr, starts_with, normalize, in_front, split_frame, parse_frame, emit, drain, push,
  feed,
}
use your_stack.Sse.Frames.{split_frame-length, drain-fuel, drain-some, drain-none}
use your_stack.Sse.Chunks.{
  IsCalm, IsNormal, normalize-IsNormal, normalize_again, split_frame-append, starts_with-append,
  IsCalm-left, calm_next, and-congr, normalize_crlf, normalize_keep, after, split_frame_nil,
  split_frame_one, split_here, split_on,
}

-- The loop with fuel enough.
abbrev pub cut : Text → List SseEvent × Text
cut b = drain (length b) b

abbrev pub before : List SseEvent → List SseEvent × Text → List SseEvent × Text
before es r = (es ++ r.0, r.1)

pub cut-none : (b : Text) → split_frame b ≡ none → cut b ≡ ([], b)
cut-none b e = drain-none (length b) b e

pub cut-some :
    (b frame rest : Text)
    → split_frame b ≡ some (frame, rest)
    → cut b ≡ (emit (parse_frame frame) (cut rest).0, (cut rest).1)
cut-some b frame rest e =
    let short = split_frame-length b frame rest e in
    drain-fuel (length b) (suc (length b)) b (omega arith) (omega arith)
    ∙ drain-some (length b) b frame rest e
    ∙ ap (λ r. (emit (parse_frame frame) r.0, r.1))
        (drain-fuel (length b) (length rest) rest (omega (arith, short)) (omega arith))

-- What is left of a split is the end of the text.
split_frame-suffix :
    (t : Text) (p : Text × Text) → split_frame t ≡ some p → (x : Text) × (t ≡ x ++ p.1)
split_frame-suffix [] p e = absurd (cc (sym split_frame_nil ∙ e))
split_frame-suffix (c ∷ []) p e = absurd (cc (sym (split_frame_one c) ∙ e))
split_frame-suffix (c ∷ d ∷ s) p e = elim (Bool-cases (c == lf && d == lf)) [
  | inl b ↦ (c ∷ d ∷ [], ground (arith, sym (split_here c (d ∷ s) b) ∙ e))
  | inr b ↦ elim (Option-cases (split_frame (d ∷ s))) [
    | inl n ↦ absurd (cc (sym (split_on c (d ∷ s) b ∙ ap (in_front c) n) ∙ e))
    | inr (q, n) ↦
        let (x, same) = split_frame-suffix (d ∷ s) q n in
        (c ∷ x, further c (d ∷ s) x q p same (sym (split_on c (d ∷ s) b ∙ ap (in_front c) n) ∙ e))
  ]
]
  where
    further :
        (c : ℕ) (s x : Text) (q p : Text × Text)
        → s ≡ x ++ q.1
        → in_front c (some q) ≡ some p
        → (c ∷ s) ≡ (c ∷ x) ++ p.1
    further c s x q p same e = ground (arith, same, e)

IsCalm-right : (x y : Text) → IsCalm (x ++ y) → IsCalm y
IsCalm-right [] y h = h
IsCalm-right (c ∷ x) y h = IsCalm-right x y h.1

IsNormal-right : (x y : Text) → IsNormal (x ++ y) → IsNormal y
IsNormal-right [] y h = h
IsNormal-right (c ∷ x) y h = IsNormal-right x y h.1

IsCalm-normalize : (t u : Text) → IsCalm (t ++ u) → IsCalm (normalize t ++ u)
IsCalm-normalize [] u h = unfold normalize in h
IsCalm-normalize (c ∷ s) u h = elim (Bool-cases (c == cr && starts_with lf s)) [
  | inl e ↦ rw (normalize_crlf c s e) (IsCalm-normalize s u h.1)
  | inr e ↦ rw (normalize_keep c s e) (
    and-congr (c == cr) (starts_with cr (normalize s ++ u)) (starts_with cr (s ++ u))
          (λ q. starts_with-append cr s u (calm_next c s (IsCalm-left (c ∷ s) u h) q))
        ∙ h.0,
    IsCalm-normalize s u h.1,
  )
]

emit-append : (o : Option SseEvent) (es fs : List SseEvent) → emit o (es ++ fs) ≡ emit o es ++ fs
emit-append none es fs = refl
emit-append (some e) es fs = refl

-- The loop on a longer buffer goes on where the loop on the shorter one stopped.
cut-append :
    (n : ℕ) (t u : Text)
    → length t ≤ n
    → IsNormal t
    → cut (normalize (t ++ u)) ≡ before (cut t).0 (cut (normalize ((cut t).1 ++ u)))
cut-append zero [] u le h = rw (cut-none [] split_frame_nil) refl
cut-append zero (c ∷ t) u le h = absurd (omega (arith, le))
cut-append (suc n) t u le h = elim (Option-cases (split_frame t)) [
  | inl e ↦ rw (cut-none t e) refl
  | inr ((frame, rest), e) ↦
      let (x, same) = split_frame-suffix t (frame, rest) e in
      let short = split_frame-length t frame rest e in
      let more = split_frame-append t u (frame, rest) h e ∙ ap (after u) e in
      let ih =
        cut-append n rest u (omega (arith, le, short))
          (IsNormal-right x rest (subst IsNormal same h)) in
      cut-some (normalize (t ++ u)) frame (normalize (rest ++ u)) more
      ∙ ap (λ r. (emit (parse_frame frame) r.0, r.1)) ih
      ∙ ap (λ es. (es, (cut (normalize ((cut rest).1 ++ u))).1))
          (emit-append (parse_frame frame) (cut rest).0 (cut (normalize ((cut rest).1 ++ u))).0)
      ∙ sym (ap (λ r. before r.0 (cut (normalize (r.1 ++ u)))) (cut-some t frame rest e))
]

IsCalm-cut : (n : ℕ) (t u : Text) → length t ≤ n → IsCalm (t ++ u) → IsCalm ((cut t).1 ++ u)
IsCalm-cut zero [] u le h = rw (cut-none [] split_frame_nil) h
IsCalm-cut zero (c ∷ t) u le h = absurd (omega (arith, le))
IsCalm-cut (suc n) t u le h = elim (Option-cases (split_frame t)) [
  | inl e ↦ rw (cut-none t e) h
  | inr ((frame, rest), e) ↦
      let (x, same) = split_frame-suffix t (frame, rest) e in
      let short = split_frame-length t frame rest e in
      rw (cut-some t frame rest e) (
        IsCalm-cut n rest u (omega (arith, le, short)) (
          IsCalm-right x (rest ++ u)
            (subst IsCalm (ap (λ y. y ++ u) same ∙ append_assoc x rest u) h)))
]

-- One push of a long chunk is two pushes of its parts.
push-append :
    (b c d : Text)
    → IsCalm (b ++ (c ++ d))
    → push b (c ++ d) ≡ before (push b c).0 (push (push b c).1 d)
unfolding push
push-append b c d h =
    let calm = subst IsCalm (sym (append_assoc b c d)) h in
    ap (λ t. cut (normalize t)) (sym (append_assoc b c d))
    ∙ ap cut (sym (normalize_again (b ++ c) d calm))
    ∙ cut-append (length (normalize (b ++ c))) (normalize (b ++ c)) d (omega arith)
        (normalize-IsNormal (b ++ c) (IsCalm-left (b ++ c) d calm))

push-IsCalm : (b c u : Text) → IsCalm (b ++ (c ++ u)) → IsCalm ((push b c).1 ++ u)
unfolding push
push-IsCalm b c u h =
    IsCalm-cut (length (normalize (b ++ c))) (normalize (b ++ c)) u (omega arith)
      (IsCalm-normalize (b ++ c) u (subst IsCalm (sym (append_assoc b c u)) h))

abbrev pub concat : List Text → Text
concat [] = []
concat (c ∷ cs) = c ++ concat cs

-- A response gives the same events, and leaves the same buffer, however it is cut into chunks, if no
-- two carriage returns stand side by side in it.
pub feed-push :
    (b c : Text) (cs : List Text)
    → IsCalm (b ++ (c ++ concat cs))
    → feed b (c ∷ cs) ≡ push b (c ++ concat cs)
unfolding feed
feed-push b c [] h = rw (append-nil, append-nil) refl
feed-push b c (d ∷ ds) h =
    ap (before (push b c).0) (feed-push (push b c).1 d ds (push-IsCalm b c (d ++ concat ds) h))
    ∙ sym (push-append b c (d ++ concat ds) h)
