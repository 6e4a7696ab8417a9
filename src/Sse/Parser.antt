-- ===== src/Sse/Parser.antt =====
-- apps/cli/src/lib/sse.ts: `SseParser` and `parseFrame`. Texts are lists of code units.
use your_stack.Common.{
  ℕ, zero, suc, Bool, true, false, Option, none, some, List, [], ◌∷◌, ◌++◌, ◌==◌, ◌&&◌, ◌||◌,
  length, if◌then◌else◌,
}
use your_stack.Common.Text.{Text, codes, eq_text}

pub record SseEvent : Type 0 where
  pub event : Text
  pub data_text : Text

abbrev pub lf : ℕ
lf = 10

abbrev pub cr : ℕ
cr = 13

abbrev pub colon : ℕ
colon = 58

abbrev pub starts_with : ℕ → Text → Bool
starts_with b [] = false
starts_with b (c ∷ s) = c == b

-- `replace(/\r\n/g, '\n')`
unfoldable pub normalize : Text → Text
normalize [] = []
normalize (c ∷ s) = let rest = normalize s in if c == cr && starts_with lf s then rest else c ∷ rest

abbrev pub drop_one : Text → Text
drop_one [] = []
drop_one (c ∷ s) = s

abbrev pub in_front : ℕ → Option (Text × Text) → Option (Text × Text)
in_front c none = none
in_front c (some (frame, rest)) = some (c ∷ frame, rest)

-- What stands before the first blank line, and what stands after it.
unfoldable pub split_frame : Text → Option (Text × Text)
split_frame [] = none
split_frame (c ∷ s) =
    let later = split_frame s in
    if c == lf && starts_with lf s then some ([], drop_one s) else in_front c later

abbrev pub on_first : ℕ → List Text → List Text
on_first c [] = (c ∷ []) ∷ []
on_first c (l ∷ ls) = (c ∷ l) ∷ ls

-- `raw.split('\n')`
unfoldable pub split_lines : Text → List Text
split_lines [] = [] ∷ []
split_lines (c ∷ s) = let rest = split_lines s in if c == lf then [] ∷ rest else on_first c rest

-- `join('\n')`
unfoldable pub join_lines : List Text → Text
join_lines [] = []
join_lines (l ∷ []) = l
join_lines (l ∷ m ∷ ls) = l ++ (lf ∷ join_lines (m ∷ ls))

-- What stands before the first colon, or the whole line.
unfoldable pub field_of : Text → Text
field_of [] = []
field_of (c ∷ s) = let rest = field_of s in if c == colon then [] else c ∷ rest

-- What stands after the first colon, or nothing.
unfoldable pub after_colon : Text → Text
after_colon [] = []
after_colon (c ∷ s) = let rest = after_colon s in if c == colon then s else rest

-- `if (value.startsWith(' ')) value = value.slice(1)`
unfoldable pub value_of : Text → Text
unfolding after_colon
value_of line = let v = after_colon line in if starts_with 32 v then drop_one v else v

-- The variables of `parseFrame`, with the data lines in order.
pub record Frame : Type 0 where
  pub event : Text
  pub data_lines : List Text
  pub saw_field : Bool

abbrev pub is_skipped : Text → Bool
is_skipped [] = true
is_skipped (c ∷ s) = c == colon

-- One round of the loop over the lines.
unfoldable pub read_line : Text → Frame → Frame
unfolding field_of value_of
read_line line f =
    if is_skipped line
    then f
    else if eq_text (field_of line) (codes "event")
    then record f { event = value_of line; saw_field = true }
    else if eq_text (field_of line) (codes "data")
    then record f { data_lines = f.data_lines ++ (value_of line ∷ []); saw_field = true }
    else if eq_text (field_of line) (codes "id") || eq_text (field_of line) (codes "retry")
    then record f { saw_field = true }
    else f

unfoldable pub read_lines : List Text → Frame → Frame
unfolding read_line
read_lines [] f = f
read_lines (l ∷ ls) f = read_lines ls (read_line l f)

abbrev pub blank_frame : Frame
blank_frame = record { event = codes "message"; data_lines = []; saw_field = false }

unfoldable pub parse_frame : Text → Option SseEvent
unfolding read_lines split_lines join_lines
parse_frame raw =
    let f = read_lines (split_lines raw) blank_frame in
    if f.saw_field
    then some record { event = f.event; data_text = join_lines f.data_lines }
    else none

abbrev pub emit : Option SseEvent → List SseEvent → List SseEvent
emit none es = es
emit (some e) es = e ∷ es

-- The `while` loop, on fuel: the events in order, and the buffer that is left.
unfoldable pub drain : ℕ → Text → List SseEvent × Text
unfolding split_frame parse_frame
drain zero buffer = ([], buffer)
drain (suc n) buffer = elim (split_frame buffer) [
  | none ↦ ([], buffer)
  | some p ↦ (emit (parse_frame p.0) (drain n p.1).0, (drain n p.1).1)
]

-- `push`: each round takes two characters at least, so the length is fuel enough.
unfoldable pub push : Text → Text → List SseEvent × Text
unfolding drain normalize
push buffer chunk = let b = normalize (buffer ++ chunk) in drain (length b) b

-- The chunks of a response one after the other, by the loop of `streamSse` with a handler that never
-- stops it.
unfoldable pub feed : Text → List Text → List SseEvent × Text
unfolding push
feed buffer [] = ([], buffer)
feed buffer (c ∷ cs) = let r = push buffer c in let rest = feed r.1 cs in (r.0 ++ rest.0, rest.1)
