-- ===== src/Sse/Chunks.antt =====
-- How the response is cut into chunks makes no difference to the parser.
use your_stack.Common.{
  ℕ, ◌≡◌, refl, sym, ◌∙◌, ap, Bool, true, false, Option, none, some, [], ◌∷◌, ◌++◌, ◌==◌, ◌&&◌,
  arith, Bool-cases, Option-cases, inl, inr,
}
use your_stack.Common.Text.{Text}
use your_stack.Sse.Parser.{lf, cr, starts_with, normalize, drop_one, in_front, split_frame}

-- No carriage return stands right before another.
abbrev pub IsCalm : Text → Type 0
IsCalm [] = Unit
IsCalm (c ∷ s) = ((c == cr && starts_with cr s) ≡ false) × IsCalm s

-- None stands right before a line feed.
abbrev pub IsNormal : Text → Type 0
IsNormal [] = Unit
IsNormal (c ∷ s) = ((c == cr && starts_with lf s) ≡ false) × IsNormal s

starts_with-normalize :
    (b : ℕ) (s : Text) → starts_with cr s ≡ false → starts_with b (normalize s) ≡ starts_with b s
unfolding normalize
starts_with-normalize b [] h = refl
starts_with-normalize b (c ∷ s) h = ground (arith, h)

pub normalize_crlf :
    (c : ℕ) (s : Text) → (c == cr && starts_with lf s) ≡ true → normalize (c ∷ s) ≡ normalize s
unfolding normalize
normalize_crlf c s e = rw e refl

pub normalize_keep :
    (c : ℕ) (s : Text) → (c == cr && starts_with lf s) ≡ false → normalize (c ∷ s) ≡ c ∷ normalize s
unfolding normalize
normalize_keep c s e = rw e refl

-- A test on two characters looks at the second only behind a carriage return.
pub and-congr : (a x y : Bool) → (a ≡ true → x ≡ y) → (a && x) ≡ (a && y)
and-congr true x y h = h refl
and-congr false x y h = refl

and_false : (a : Bool) → (a && false) ≡ false
and_false true = refl
and_false false = refl

begins :
    (c : ℕ) (s u : Text)
    → (c == cr && starts_with lf s) ≡ true
    → (c == cr && starts_with lf (s ++ u)) ≡ true
begins c [] u e = absurd (cc (sym (and_false (c == cr)) ∙ e))
begins c (d ∷ s) u e = e

pub calm_next : (c : ℕ) (s : Text) → IsCalm (c ∷ s) → (c == cr) ≡ true → starts_with cr s ≡ false
calm_next c s h e = ground (arith, h.0, e)

pub normalize-IsNormal : (t : Text) → IsCalm t → IsNormal (normalize t)
normalize-IsNormal [] h = unfold normalize in tt
normalize-IsNormal (c ∷ s) h = elim (Bool-cases (c == cr && starts_with lf s)) [
  | inl e ↦ rw (normalize_crlf c s e) (normalize-IsNormal s h.1)
  | inr e ↦ rw (normalize_keep c s e) (
    and-congr (c == cr) (starts_with lf (normalize s)) (starts_with lf s)
          (λ q. starts_with-normalize lf s (calm_next c s h q))
        ∙ e,
    normalize-IsNormal s h.1,
  )
]

pub starts_with-append :
    (b : ℕ) (s u : Text)
    → starts_with cr s ≡ false
    → starts_with b (normalize s ++ u) ≡ starts_with b (s ++ u)
unfolding normalize
starts_with-append b [] u h = refl
starts_with-append b (c ∷ s) u h = ground (arith, h)

pub IsCalm-left : (t u : Text) → IsCalm (t ++ u) → IsCalm t
IsCalm-left [] u h = tt
IsCalm-left (c ∷ []) u h = (and_false (c == cr), tt)
IsCalm-left (c ∷ d ∷ s) u h = (h.0, IsCalm-left (d ∷ s) u h.1)

pub normalize_again :
    (t u : Text) → IsCalm (t ++ u) → normalize (normalize t ++ u) ≡ normalize (t ++ u)
normalize_again [] u h = unfold normalize in refl
normalize_again (c ∷ s) u h = elim (Bool-cases (c == cr && starts_with lf s)) [
  | inl e ↦
      rw (normalize_crlf c s e)
        (normalize_again s u h.1 ∙ sym (normalize_crlf c (s ++ u) (begins c s u e)))
  | inr e ↦
      let same =
        and-congr (c == cr) (starts_with lf (normalize s ++ u)) (starts_with lf (s ++ u))
          (λ q. starts_with-append lf s u (calm_next c s (IsCalm-left (c ∷ s) u h) q)) in
      rw (normalize_keep c s e) (elim (Bool-cases (c == cr && starts_with lf (s ++ u))) [
        | inl f ↦
            normalize_crlf c (normalize s ++ u) (same ∙ f)
            ∙ normalize_again s u h.1
            ∙ sym (normalize_crlf c (s ++ u) f)
        | inr f ↦
            normalize_keep c (normalize s ++ u) (same ∙ f)
            ∙ ap (λ r. c ∷ r) (normalize_again s u h.1)
            ∙ sym (normalize_keep c (s ++ u) f)
      ])
]

pub split_here :
    (c : ℕ) (s : Text)
    → (c == lf && starts_with lf s) ≡ true
    → split_frame (c ∷ s) ≡ some ([], drop_one s)
unfolding split_frame
split_here c s e = rw e refl

pub split_on :
    (c : ℕ) (s : Text)
    → (c == lf && starts_with lf s) ≡ false
    → split_frame (c ∷ s) ≡ in_front c (split_frame s)
unfolding split_frame
split_on c s e = rw e refl

pub split_frame_nil : split_frame [] ≡ none
unfolding split_frame
split_frame_nil = refl

pub split_frame_one : (c : ℕ) → split_frame (c ∷ []) ≡ none
unfolding split_frame
split_frame_one c = split_on c [] (and_false (c == lf))

-- A split, with more text behind what is left.
abbrev pub after : Text → Option (Text × Text) → Option (Text × Text)
after u none = none
after u (some (frame, rest)) = some (frame, normalize (rest ++ u))

after-in_front :
    (u : Text) (c : ℕ) (o : Option (Text × Text)) → after u (in_front c o) ≡ in_front c (after u o)
after-in_front u c none = refl
after-in_front u c (some (frame, rest)) = refl

split_frame-blank :
    (s u : Text) → split_frame (normalize (lf ∷ lf ∷ (s ++ u))) ≡ some ([], normalize (s ++ u))
unfolding normalize split_frame
split_frame-blank s u = refl

starts_with-lf :
    (d e : ℕ) (s u : Text)
    → IsNormal (d ∷ e ∷ s)
    → starts_with lf (normalize (d ∷ e ∷ (s ++ u))) ≡ (d == lf)
starts_with-lf d e s u h = ap (starts_with lf) (normalize_keep d (e ∷ (s ++ u)) h.0)

-- A frame that stands in a normal buffer is cut off before anything that comes after.
pub split_frame-append :
    (t u : Text) (p : Text × Text)
    → IsNormal t
    → split_frame t ≡ some p
    → split_frame (normalize (t ++ u)) ≡ after u (split_frame t)
split_frame-append [] u p h e = absurd (cc (sym split_frame_nil ∙ e))
split_frame-append (c ∷ []) u p h e = absurd (cc (sym (split_frame_one c) ∙ e))
split_frame-append (c ∷ d ∷ s) u p h e = elim (Bool-cases (c == lf && d == lf)) [
  | inl b ↦
      let (x, y) = both c d b in rw (split_here c (d ∷ s) b) (rw (x, y) (split_frame-blank s u))
  | inr b ↦ elim (Option-cases (split_frame (d ∷ s))) [
    | inl n ↦ absurd (cc (sym (split_on c (d ∷ s) b ∙ ap (in_front c) n) ∙ e))
    | inr (q, n) ↦
        ap split_frame (normalize_keep c (d ∷ (s ++ u)) h.0)
        ∙ split_on c (normalize (d ∷ (s ++ u))) (
            and-congr (c == lf) (starts_with lf (normalize (d ∷ (s ++ u)))) (d == lf)
              (λ _. next_starts d s u q h.1 n)
            ∙ b)
        ∙ ap (in_front c) (split_frame-append (d ∷ s) u q h.1 n)
        ∙ sym (ap (after u) (split_on c (d ∷ s) b) ∙ after-in_front u c (split_frame (d ∷ s)))
  ]
]
  where
    both : (c d : ℕ) → (c == lf && d == lf) ≡ true → (c ≡ lf) × (d ≡ lf)
    both c d b = ground (arith, b)

    next_starts :
        (d : ℕ) (s u : Text) (q : Text × Text)
        → IsNormal (d ∷ s)
        → split_frame (d ∷ s) ≡ some q
        → starts_with lf (normalize (d ∷ (s ++ u))) ≡ (d == lf)
    next_starts d [] u q h n = absurd (cc (sym (split_frame_one d) ∙ n))
    next_starts d (e ∷ s) u q h n = starts_with-lf d e s u h
