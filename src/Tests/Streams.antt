-- ===== src/Tests/Streams.antt =====
-- The event stream and the signatures.
use your_stack.Common.{ℕ, ◌≡◌, refl, true, List, [], ◌∷◌, ◌++◌, arith}
use your_stack.Common.Text.{Text, codes}
use your_stack.Sse.{SseEvent, feed, Sent, sent, keep_alive, write_all, write, write_event}
use your_stack.Sse.RoundTrip.{AreLines, feed-write_all}
use your_stack.Signing.{
  Json, num, str, obj, end, field, SignableCommand, sign_command, verify_command_signature,
}
use your_stack.Signing.Reordering.{
  Reordered, swap, in_object, verify_command_signature-sign_command,
}

-- "data: x" and a blank line, cut within the line break.
abbrev first_chunk : Text
first_chunk = codes "data: x\r"

abbrev second_chunk : Text
second_chunk = codes "\n\n"

abbrev status_event : SseEvent
status_event = record { event = codes "s"; data_text = codes "{}" }

abbrev stream : List Sent
stream = keep_alive ∷ sent status_event ∷ []

stream-AreLines : AreLines stream
stream-AreLines = (ground arith, ground arith, tt)

feed-write_all_example :
    feed [] (codes ": keep-alive\n" ∷ codes "\nevent: s\ndata: {}\n\n" ∷ [])
    ≡ (status_event ∷ [], [])
unfolding write_all write write_event
feed-write_all_example =
    feed-write_all stream (codes ": keep-alive\n") (codes "\nevent: s\ndata: {}\n\n" ∷ [])
      stream-AreLines refl

abbrev payload : Json
payload =
    obj (field (codes "type") (str (codes "DEPLOY")) (field (codes "n") (num (codes "3")) end))

abbrev stored : Json
stored = obj (field (codes "n") (num (codes "3")) (field (codes "type") (str (codes "DEPLOY")) end))

payload-Reordered : Reordered payload stored
payload-Reordered = in_object (swap (λ e. cc))

-- A digest that joins the key and the message.
abbrev joined : Text → Text → Text
joined key message = key ++ message

abbrev as_bytes : Text → List ℕ
as_bytes t = t

abbrev command : SignableCommand
command = record {
  id = codes "c1";
  node_id = codes "n1";
  payload = payload;
  timeout_ms = codes "300000";
  issued_at = codes "2026-01-01T00:00:00.000Z";
}

verify_command_signature-sign_command_example :
    verify_command_signature joined as_bytes
      (record command { payload = stored })
      (sign_command joined as_bytes command (codes "0f"))
      (codes "0f")
    ≡ true
verify_command_signature-sign_command_example =
    verify_command_signature-sign_command joined as_bytes command stored (codes "0f")
      payload-Reordered
