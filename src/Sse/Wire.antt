-- ===== src/Sse/Wire.antt =====
-- What apps/api/src/routes/events.ts writes to an open stream: events and keep-alives. The data of an
-- event is given as the text that JSON.stringify makes of it.
use your_stack.Common.{List, [], ◌∷◌, ◌++◌}
use your_stack.Common.Text.{Text, codes}
use your_stack.Sse.Parser.{SseEvent, lf}

pub data Sent : Type 0 where
  sent : SseEvent → Sent
  keep_alive : Sent

-- `event: ${event.type}\ndata: ${JSON.stringify(event.data)}\n\n`
unfoldable pub write_event : SseEvent → Text
write_event e =
    codes "event: " ++ (e.event ++ (lf ∷ (codes "data: " ++ (e.data_text ++ (lf ∷ lf ∷ [])))))

unfoldable pub write : Sent → Text
unfolding write_event
write (sent e) = write_event e
write keep_alive = codes ": keep-alive" ++ (lf ∷ lf ∷ [])

unfoldable pub write_all : List Sent → Text
unfolding write
write_all [] = []
write_all (x ∷ xs) = write x ++ write_all xs

-- The events among what is written.
abbrev pub events_of : List Sent → List SseEvent
events_of [] = []
events_of (sent e ∷ xs) = e ∷ events_of xs
events_of (keep_alive ∷ xs) = events_of xs
