-- ===== src/Tests/Streams.antt =====
-- The theorems on the writing loop and the secrets at concrete inputs.
use room_chat.Prelude.{
  ◌≡◌, ◌↔◌, ◌⊎◌, inr, refl, sym, false, true, Option, none, some, List, [], ◌∷◌, ◌++◌, map, Text,
  text, text_beq, arith, if◌then◌else◌,
}
use room_chat.Protocol.{Message}
use room_chat.Connection.Writing.{
  Writing, Turn, arrives, wakes, goes_on, at_select, ticks, marshalled, turn, write_messages,
}
use room_chat.Connection.Lines.{frame_lines, HasNoNewline}
use room_chat.Connection.Flushing.{WritesLines, unfinished, accepted, write_messages-delivered}
use room_chat.Connection.Frames.{rounds, write_messages-ends}
use room_chat.Config.{unmarshal_secret}
use room_chat.Config.Secrets.{Names, unmarshal_secret-Names}
use room_chat.Tests.Fixture.{say_go, join_go, leave_go}

-- Every message has the text {}, but for a leave request, which has none.
abbrev print_of : Text → Option Text
print_of [] = none
print_of (c ∷ cs) = some (text "{}")

abbrev print : Message → Option Text
print m = print_of m.user

braces : HasNoNewline (text "{}")
braces = (λ e. ground (arith, e), (λ e. ground (arith, e), tt))

printed : {t : Text} → some (text "{}") ≡ some t → text "{}" ≡ t
printed e = cc

print_of-HasNoNewline : (u t : Text) → print_of u ≡ some t → HasNoNewline t
print_of-HasNoNewline [] t e = absurd cc
print_of-HasNoNewline (c ∷ cs) t e = rw (sym (printed e)) braces

print-WritesLines : WritesLines print
print-WritesLines m t e = print_of-HasNoNewline m.user t e

abbrev two_waiting : Writing
two_waiting = record {
  queue = record { buffer = say_go ∷ join_go ∷ []; closed = false };
  frames = [];
  place = at_select;
  running = true;
}

abbrev turns : List Turn
turns =
    wakes true
    ∷ arrives leave_go
    ∷ goes_on true
    ∷ ticks true
    ∷ arrives say_go
    ∷ goes_on true
    ∷ wakes true
    ∷ goes_on true
    ∷ []

still_running : (write_messages print turns two_waiting).running ≡ true
unfolding write_messages turn
still_running = refl

write_messages-delivered_example :
    frame_lines (write_messages print turns two_waiting).frames
      ++ (unfinished (write_messages print turns two_waiting).place
          ++ map
              (λ m. marshalled print (print m))
              (write_messages print turns two_waiting).queue.buffer)
    ≡ (text "{}" ∷ text "{}" ∷ [])
      ++ map (λ m. marshalled print (print m)) (accepted print turns two_waiting)
unfolding frame_lines
write_messages-delivered_example =
    write_messages-delivered print print-WritesLines turns two_waiting still_running

-- Before each of the two rounds a message arrives.
abbrev meanwhile : List (List Message)
meanwhile = (leave_go ∷ []) ∷ (say_go ∷ []) ∷ []

abbrev after_frame : Writing
after_frame = write_messages print (wakes true ∷ rounds meanwhile) two_waiting

write_messages-ends_example :
    (after_frame.place ≡ at_select)
    × (after_frame.running ≡ true)
    × (after_frame.queue.buffer ≡ accepted print (wakes true ∷ rounds meanwhile) two_waiting)
write_messages-ends_example =
    write_messages-ends print say_go (join_go ∷ []) (text "{}") two_waiting refl refl refl refl
      meanwhile refl

-- JSON strings stand for themselves.
abbrev environment : Text → Option Text
environment name = if text_beq name (text "PASS") then some (text "secret") else none

unmarshal_secret-Names_example :
    (unmarshal_secret {Data = Text} (λ s. inr s) environment (text "#env:PASS")
      ≡ inr (text "secret"))
    ↔ ((key : Text) × (◌≡◌ {A = Text ⊎ Text} (inr (text "#env:PASS")) (inr key))
        × Names environment key (text "secret"))
unmarshal_secret-Names_example =
    unmarshal_secret-Names {Data = Text} (λ s. inr s) environment (text "#env:PASS") (text "secret")
