-- ===== src/Connection/Flushing.antt =====
-- The frames of a connection against the messages that were put in its queue.
use room_chat.Prelude.{
  ℕ, zero, suc, ◌≡◌, ◌∙◌, sym, ap, refl, Bool, true, false, not, ◌&&◌, Option, none, some, List, [],
  ◌∷◌, ◌++◌, map, Text, Option-cases, Bool-cases, inl, inr, arith, if◌then◌else◌,
}
use mathlib.Core.List.{append_assoc, append-nil, map-append}
use room_chat.Protocol.{Message}
use room_chat.Connection.{has_room}
use room_chat.Connection.Writing.{
  text_frame, ping, close_frame, Place, at_select, in_frame, Writing, Turn, arrives, closes, wakes,
  goes_on, ticks, stop, write_frame, marshalled, flush, write_queued, write_first, receive, go_on,
  select, ping_peer, turn, write_messages,
}
use room_chat.Connection.Lines.{
  lines, frame_lines, HasNoNewline, lines-line, lines-append, frame_lines-append,
}

-- The text of a message holds no newline, as the encoder escapes them.
abbrev pub WritesLines : (Message → Option Text) → Type 0
WritesLines marshal = (m : Message) (t : Text) → marshal m ≡ some t → HasNoNewline t

-- What a turn adds to the queue.
abbrev pub accepted_by : Turn → Writing → List Message
accepted_by (arrives m) w = if has_room w.queue && not w.queue.closed then m ∷ [] else []
accepted_by closes w = []
accepted_by (wakes opens) w = []
accepted_by (goes_on goes_well) w = []
accepted_by (ticks sends) w = []

-- The lines of the frame that the loop is in.
abbrev pub unfinished : Place → List Text
unfinished at_select = []
unfinished (in_frame bytes n) = lines bytes

-- All that is added to the queue.
abbrev pub accepted : (Message → Option Text) → List Turn → Writing → List Message
accepted marshal [] w = []
accepted marshal (t ∷ ts) w = accepted_by t w ++ accepted marshal ts (turn marshal t w)

module _ (marshal : Message → Option Text) (law : WritesLines marshal) where
  abbrev text_of : Message → Text
  text_of m = marshalled marshal (marshal m)

  text_of-HasNoNewline : (m : Message) → HasNoNewline (text_of m)
  text_of-HasNoNewline m = elim (Option-cases (marshal m)) [
    | inl e ↦ rw e tt
    | inr (t, e) ↦ rw e (law m t e)
  ]

  -- What was written, what the frame has so far, and what still waits.
  abbrev pub delivered : Writing → List Text
  delivered w = frame_lines w.frames ++ (unfinished w.place ++ map text_of w.queue.buffer)

  idle-delivered :
      (shut opens : Bool) (w : Writing)
      → (if shut then stop (if opens then write_frame close_frame w else w) else w).running ≡ true
      → delivered (if shut then stop (if opens then write_frame close_frame w else w) else w)
        ≡ delivered w
  idle-delivered true opens w going = absurd cc
  idle-delivered false opens w going = refl

  first-delivered :
      (m : Message) (rest : List Message) (w : Writing) (o : Option Text)
      → marshal m ≡ o
      → w.place ≡ at_select
      → w.queue.buffer ≡ m ∷ rest
      → (write_first marshal o rest w).running ≡ true
      → delivered (write_first marshal o rest w) ≡ delivered w
  first-delivered m rest w none made select e going = absurd cc
  first-delivered m rest w (some bytes) made select e going =
      rw (select, e, made, lines-line bytes (law m bytes made)) refl

  receive-delivered :
      (opens : Bool) (ms : List Message) (w : Writing)
      → w.place ≡ at_select
      → w.queue.buffer ≡ ms
      → (receive marshal opens ms w).running ≡ true
      → delivered (receive marshal opens ms w) ≡ delivered w
  receive-delivered opens [] w select e going = idle-delivered w.queue.closed opens w going
  receive-delivered false (m ∷ rest) w select e going = absurd cc
  receive-delivered true (m ∷ rest) w select e going =
      first-delivered m rest w (marshal m) refl select e going

  -- A round of the loop within a frame.
  queued-delivered :
      (bytes : Text) (n : ℕ) (ms : List Message) (w : Writing)
      → w.place ≡ in_frame bytes (suc n)
      → w.queue.buffer ≡ ms
      → delivered (write_queued marshal bytes n ms w) ≡ delivered w
  queued-delivered bytes n [] w inside e = refl
  queued-delivered bytes n (m ∷ rest) w inside e =
      rw
        (inside, e, lines-append bytes (text_of m), lines-line (text_of m) (text_of-HasNoNewline m))
        (ap (λ ls. frame_lines w.frames ++ ls)
          (append_assoc (lines bytes) (text_of m ∷ []) (map text_of rest)))

  flush-delivered :
      (goes_well : Bool) (bytes : Text) (w : Writing)
      → w.place ≡ in_frame bytes zero
      → (flush marshal goes_well bytes w).running ≡ true
      → delivered (flush marshal goes_well bytes w) ≡ delivered w
  unfolding frame_lines
  flush-delivered false bytes w inside going = absurd cc
  flush-delivered true bytes w inside going =
      rw (inside, frame_lines-append w.frames (text_frame bytes ∷ []), append-nil (lines bytes))
        (append_assoc (frame_lines w.frames) (lines bytes) (map text_of w.queue.buffer))

  go_on-delivered :
      (goes_well : Bool) (p : Place) (w : Writing)
      → w.place ≡ p
      → (go_on marshal goes_well p w).running ≡ true
      → delivered (go_on marshal goes_well p w) ≡ delivered w
  go_on-delivered goes_well at_select w e going = refl
  go_on-delivered goes_well (in_frame bytes zero) w e going =
      flush-delivered goes_well bytes w e going
  go_on-delivered goes_well (in_frame bytes (suc n)) w e going =
      queued-delivered bytes n w.queue.buffer w e refl

  ping-delivered :
      (sends : Bool) (w : Writing)
      → (ping_peer marshal sends w).running ≡ true
      → delivered (ping_peer marshal sends w) ≡ delivered w
  unfolding frame_lines
  ping-delivered true w going =
      ap (λ ls. ls ++ (unfinished w.place ++ map text_of w.queue.buffer))
        (frame_lines-append w.frames (ping ∷ []) ∙ append-nil (frame_lines w.frames))
  ping-delivered false w going = absurd cc

  -- A case of the select, where the loop is there.
  select-delivered :
      (chosen : Writing → Writing) (p : Place) (w : Writing)
      → (p ≡ at_select → (chosen w).running ≡ true → delivered (chosen w) ≡ delivered w)
      → (select marshal chosen p w).running ≡ true
      → delivered (select marshal chosen p w) ≡ delivered w
  select-delivered chosen at_select w h going = h refl going
  select-delivered chosen (in_frame bytes n) w h going = refl

  if-delivered :
      (on : Bool) (x w : Writing)
      → (x.running ≡ true → delivered x ≡ delivered w)
      → (if on then x else w).running ≡ true
      → delivered (if on then x else w) ≡ delivered w ++ []
  if-delivered true x w h going = h going ∙ sym (append-nil (delivered w))
  if-delivered false x w h going = sym (append-nil (delivered w))

  if-running :
      (on : Bool) (x w : Writing)
      → w.running ≡ on
      → (if on then x else w).running ≡ true
      → w.running ≡ true
  if-running true x w e going = e
  if-running false x w e going = going

  turn-delivered :
      (t : Turn) (w : Writing)
      → (turn marshal t w).running ≡ true
      → delivered (turn marshal t w) ≡ delivered w ++ map text_of (accepted_by t w)
  unfolding turn
  turn-delivered (arrives m) w going = elim (Bool-cases (has_room w.queue && not w.queue.closed)) [
    | inl room ↦ rw room (
        ap (λ ls. frame_lines w.frames ++ (unfinished w.place ++ ls))
          (map-append text_of w.queue.buffer (m ∷ []))
        ∙ ap (λ ls. frame_lines w.frames ++ ls)
            (sym (append_assoc (unfinished w.place) (map text_of w.queue.buffer) (text_of m ∷ [])))
        ∙ sym (
            append_assoc (frame_lines w.frames) (unfinished w.place ++ map text_of w.queue.buffer)
              (text_of m ∷ [])))
    | inr full ↦ rw full (sym (append-nil (delivered w)))
  ]
  turn-delivered closes w going = sym (append-nil (delivered w))
  turn-delivered (wakes opens) w going =
      if-delivered w.running _ w
        (select-delivered (λ x. receive marshal opens x.queue.buffer x) w.place w
          (λ e. receive-delivered opens w.queue.buffer w e refl))
        going
  turn-delivered (goes_on goes_well) w going =
      if-delivered w.running _ w (go_on-delivered goes_well w.place w refl) going
  turn-delivered (ticks sends) w going =
      if-delivered w.running _ w
        (select-delivered (ping_peer marshal sends) w.place w (λ e. ping-delivered sends w)) going

  turn-running : (t : Turn) (w : Writing) → (turn marshal t w).running ≡ true → w.running ≡ true
  unfolding turn
  turn-running (arrives m) w going = ground arith
  turn-running closes w going = going
  turn-running (wakes opens) w going = if-running w.running _ w refl going
  turn-running (goes_on goes_well) w going = if-running w.running _ w refl going
  turn-running (ticks sends) w going = if-running w.running _ w refl going

  write_messages-running :
      (ts : List Turn) (w : Writing)
      → (write_messages marshal ts w).running ≡ true
      → w.running ≡ true
  unfolding write_messages
  write_messages-running [] w going = going
  write_messages-running (t ∷ ts) w going =
      turn-running t w (write_messages-running ts (turn marshal t w) going)

  -- While the writing loop runs: the lines of the text frames that it wrote, followed by those that
  -- the frame it is in has so far and by the messages that wait in the queue, are what they were at
  -- the start, followed by the messages that the queue has accepted since, each once, in their
  -- order, whatever turns were taken, also where messages arrive within a frame. A message stands
  -- as its JSON text, or as an empty line if it has none; the JSON texts have no newline.
  pub write_messages-delivered :
      (ts : List Turn) (w : Writing)
      → (write_messages marshal ts w).running ≡ true
      → frame_lines (write_messages marshal ts w).frames
          ++ (unfinished (write_messages marshal ts w).place
              ++ map
                  (λ m. marshalled marshal (marshal m))
                  (write_messages marshal ts w).queue.buffer)
        ≡ (frame_lines w.frames
            ++ (unfinished w.place ++ map (λ m. marshalled marshal (marshal m)) w.queue.buffer))
          ++ map (λ m. marshalled marshal (marshal m)) (accepted marshal ts w)
  unfolding write_messages
  write_messages-delivered [] w going = sym (append-nil (delivered w))
  write_messages-delivered (t ∷ ts) w going =
      write_messages-delivered ts (turn marshal t w) going
      ∙ rw (turn-delivered t w (write_messages-running ts (turn marshal t w) going)) (
          append_assoc (delivered w) (map text_of (accepted_by t w))
            (map text_of (accepted marshal ts (turn marshal t w)))
          ∙ ap (λ ls. delivered w ++ ls)
              (sym (map-append text_of (accepted_by t w) (accepted marshal ts (turn marshal t w)))))
