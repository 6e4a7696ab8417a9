-- ===== src/Sse/RoundTrip.antt =====
-- What the API writes to a stream, the command line tool reads back.
use mathlib.Core.List.{append-nil, append_assoc}
use your_stack.Common.{
  ◌≡◌, refl, sym, ◌∙◌, ap, subst, false, Option, none, some, List, [], ◌∷◌, ◌++◌, ◌==◌, arith, All,
  All-append,
}
use your_stack.Common.Text.{Text, codes, eq_text}
use your_stack.Sse.Parser.{
  SseEvent, lf, cr, normalize, in_front, split_frame, on_first, split_lines, join_lines, field_of,
  after_colon, value_of, read_line, read_lines, parse_frame, push, feed,
}
use your_stack.Sse.Wire.{Sent, sent, keep_alive, write_event, write, write_all, events_of}
use your_stack.Sse.Chunks.{IsCalm, split_frame_nil}
use your_stack.Sse.Chunking.{cut, cut-none, cut-some, concat, feed-push}

-- One line, with no carriage return.
abbrev pub IsLine : Text → Type 0
IsLine s = All (λ c. ((c == lf) ≡ false) × ((c == cr) ≡ false)) s

-- Names and data as the API makes them: a JSON text has no line breaks.
abbrev pub AreLines : List Sent → Type 0
AreLines [] = Unit
AreLines (sent e ∷ xs) = IsLine e.event × IsLine e.data_text × AreLines xs
AreLines (keep_alive ∷ xs) = AreLines xs

abbrev HasNoCr : Text → Type 0
HasNoCr s = All (λ c. (c == cr) ≡ false) s

IsLine-HasNoCr : (s : Text) → IsLine s → HasNoCr s
IsLine-HasNoCr [] h = tt
IsLine-HasNoCr (c ∷ s) h = (h.0.1, IsLine-HasNoCr s h.1)

HasNoCr-normalize : (s : Text) → HasNoCr s → normalize s ≡ s
unfolding normalize
HasNoCr-normalize [] h = refl
HasNoCr-normalize (c ∷ s) h = rw (h.0, HasNoCr-normalize s h.1) refl

HasNoCr-IsCalm : (s : Text) → HasNoCr s → IsCalm s
HasNoCr-IsCalm [] h = tt
HasNoCr-IsCalm (c ∷ s) h = (rw h.0 refl, HasNoCr-IsCalm s h.1)

abbrev in_fronts : Text → Option (Text × Text) → Option (Text × Text)
in_fronts [] o = o
in_fronts (c ∷ x) o = in_front c (in_fronts x o)

in_fronts-some : (x f r : Text) → in_fronts x (some (f, r)) ≡ some (x ++ f, r)
in_fronts-some [] f r = refl
in_fronts-some (c ∷ x) f r = ap (in_front c) (in_fronts-some x f r)

split_frame-IsLine : (x y : Text) → IsLine x → split_frame (x ++ y) ≡ in_fronts x (split_frame y)
unfolding split_frame
split_frame-IsLine [] y h = refl
split_frame-IsLine (c ∷ x) y h = rw h.0.0 (ap (in_front c) (split_frame-IsLine x y h.1))

split_frame-end : (r : Text) → split_frame (lf ∷ lf ∷ r) ≡ some ([], r)
unfolding split_frame
split_frame-end r = refl

split_lines-IsLine : (x y : Text) → IsLine x → split_lines (x ++ (lf ∷ y)) ≡ x ∷ split_lines y
unfolding split_lines
split_lines-IsLine [] y h = refl
split_lines-IsLine (c ∷ x) y h = rw h.0.0 (ap (on_first c) (split_lines-IsLine x y h.1))

split_lines_last : (x : Text) → IsLine x → split_lines x ≡ x ∷ []
unfolding split_lines
split_lines_last [] h = refl
split_lines_last (c ∷ x) h = rw h.0.0 (ap (on_first c) (split_lines_last x h.1))

-- What stands before the blank line of a written event.
abbrev body : SseEvent → Text
body e = codes "event: " ++ (e.event ++ (lf ∷ (codes "data: " ++ e.data_text)))

split_frame-data :
    (d rest : Text)
    → IsLine d
    → split_frame (lf ∷ (codes "data: " ++ (d ++ (lf ∷ lf ∷ rest))))
      ≡ some (lf ∷ (codes "data: " ++ d), rest)
unfolding split_frame
split_frame-data d rest k =
    ap (λ o. in_front lf (in_fronts (codes "data: ") o))
      (split_frame-IsLine d (lf ∷ lf ∷ rest) k
        ∙ ap (in_fronts d) (split_frame-end rest)
        ∙ in_fronts-some d [] rest
        ∙ ap (λ x. some (x, rest)) (append-nil d))

split_frame-event :
    (e : SseEvent) (rest : Text)
    → IsLine e.event
    → IsLine e.data_text
    → split_frame (write_event e ++ rest) ≡ some (body e, rest)
unfolding write_event split_frame
split_frame-event e rest h k =
    let tail = lf ∷ (codes "data: " ++ (e.data_text ++ (lf ∷ lf ∷ []))) in
    let moved : (e.event ++ tail) ++ rest
        ≡ e.event ++ (lf ∷ (codes "data: " ++ (e.data_text ++ (lf ∷ lf ∷ rest)))) =
      append_assoc e.event tail rest
      ∙ ap (λ x. e.event ++ (lf ∷ (codes "data: " ++ x)))
          (append_assoc e.data_text (lf ∷ lf ∷ []) rest) in
    ap (in_fronts (codes "event: ")) (
      ap split_frame moved
      ∙ split_frame-IsLine e.event (lf ∷ (codes "data: " ++ (e.data_text ++ (lf ∷ lf ∷ rest)))) h
      ∙ ap (in_fronts e.event) (split_frame-data e.data_text rest k)
      ∙ in_fronts-some e.event (lf ∷ (codes "data: " ++ e.data_text)) rest)

event-IsLine : IsLine (codes "event: ")
event-IsLine = ground arith

data-IsLine : IsLine (codes "data: ")
data-IsLine = ground arith

parse_frame-body :
    (e : SseEvent) → IsLine e.event → IsLine e.data_text → parse_frame (body e) ≡ some e
unfolding parse_frame read_lines read_line field_of after_colon value_of eq_text join_lines
parse_frame-body e h k =
    let lines : split_lines (body e)
        ≡ (codes "event: " ++ e.event) ∷ (codes "data: " ++ e.data_text) ∷ [] =
      split_lines-IsLine (codes "event: " ++ e.event) (codes "data: " ++ e.data_text)
        (All-append _ (codes "event: ") e.event event-IsLine h)
      ∙ ap (λ ls. (codes "event: " ++ e.event) ∷ ls)
          (split_lines_last (codes "data: " ++ e.data_text)
            (All-append _ (codes "data: ") e.data_text data-IsLine k)) in
    rw lines refl

split_frame-keep_alive :
    (rest : Text) → split_frame (write keep_alive ++ rest) ≡ some (codes ": keep-alive", rest)
unfolding split_frame write
split_frame-keep_alive rest = refl

parse_frame-keep_alive : parse_frame (codes ": keep-alive") ≡ none
unfolding parse_frame read_lines read_line split_lines
parse_frame-keep_alive = refl

cut-write_all : (xs : List Sent) → AreLines xs → cut (write_all xs) ≡ (events_of xs, [])
unfolding write_all write
cut-write_all [] h = cut-none [] split_frame_nil
cut-write_all (sent e ∷ xs) h =
    cut-some (write_event e ++ write_all xs) (body e) (write_all xs)
      (split_frame-event e (write_all xs) h.0 h.1)
    ∙ rw (parse_frame-body e h.0 h.1, cut-write_all xs h.2) refl
cut-write_all (keep_alive ∷ xs) h =
    cut-some (write keep_alive ++ write_all xs) (codes ": keep-alive") (write_all xs)
      (split_frame-keep_alive (write_all xs))
    ∙ rw (parse_frame-keep_alive, cut-write_all xs h) refl

HasNoCr-append : (x y : Text) → HasNoCr x → HasNoCr y → HasNoCr (x ++ y)
HasNoCr-append x y = All-append (λ c. (c == cr) ≡ false) x y

HasNoCr-write : (x : Sent) → AreLines (x ∷ []) → HasNoCr (write x)
unfolding write write_event
HasNoCr-write (sent e) h =
    HasNoCr-append (codes "event: ") _ (IsLine-HasNoCr (codes "event: ") event-IsLine) (
      HasNoCr-append e.event _ (IsLine-HasNoCr e.event h.0) (
        refl,
        HasNoCr-append (codes "data: ") _ (IsLine-HasNoCr (codes "data: ") data-IsLine)
            (HasNoCr-append e.data_text _ (IsLine-HasNoCr e.data_text h.1) (refl, (refl, tt))),
      ))
HasNoCr-write keep_alive h = ground arith

HasNoCr-write_all : (xs : List Sent) → AreLines xs → HasNoCr (write_all xs)
unfolding write_all
HasNoCr-write_all [] h = tt
HasNoCr-write_all (sent e ∷ xs) h =
    HasNoCr-append (write (sent e)) (write_all xs) (HasNoCr-write (sent e) (h.0, h.1, tt))
      (HasNoCr-write_all xs h.2)
HasNoCr-write_all (keep_alive ∷ xs) h =
    HasNoCr-append (write keep_alive) (write_all xs) (HasNoCr-write keep_alive tt)
      (HasNoCr-write_all xs h)

-- Events and keep-alives that the API writes, with names and data of one line, are read back as the
-- same events in the same order with nothing left over, however the response is cut into chunks.
pub feed-write_all :
    (xs : List Sent) (c : Text) (cs : List Text)
    → AreLines xs
    → c ++ concat cs ≡ write_all xs
    → feed [] (c ∷ cs) ≡ (events_of xs, [])
unfolding push
feed-write_all xs c cs h whole =
    let clean = HasNoCr-write_all xs h in
    feed-push [] c cs (subst IsCalm (sym whole) (HasNoCr-IsCalm (write_all xs) clean))
    ∙ ap (push []) whole
    ∙ ap cut (HasNoCr-normalize (write_all xs) clean)
    ∙ cut-write_all xs h
