-- ===== src/Connection/Frames.antt =====
-- The loop over the queued messages comes to its end, while other messages arrive.
use room_chat.Prelude.{
  ℕ, zero, suc, ◌≡◌, ◌∙◌, sym, refl, true, not, ◌&&◌, Option, some, List, [], ◌∷◌, ◌++◌, map, Text,
  length, Bool-cases, inl, inr, arith,
}
use mathlib.Core.List.{append_assoc, append-nil}
use room_chat.Protocol.{Message}
use room_chat.Connection.{has_room}
use room_chat.Connection.Writing.{
  at_select, in_frame, Writing, Turn, arrives, wakes, goes_on, marshalled, turn, write_messages,
}
use room_chat.Connection.Flushing.{accepted_by, accepted}

-- The rounds, and the messages that others send before each.
abbrev pub rounds : List (List Message) → List Turn
rounds [] = []
rounds (ms ∷ mss) = map arrives ms ++ goes_on true ∷ rounds mss

module _ (marshal : Message → Option Text) where
  write_messages-append :
      (ts us : List Turn) (w : Writing)
      → write_messages marshal (ts ++ us) w
        ≡ write_messages marshal us (write_messages marshal ts w)
  unfolding write_messages
  write_messages-append [] us w = refl
  write_messages-append (t ∷ ts) us w = write_messages-append ts us (turn marshal t w)

  accepted-append :
      (ts us : List Turn) (w : Writing)
      → accepted marshal (ts ++ us) w
        ≡ accepted marshal ts w ++ accepted marshal us (write_messages marshal ts w)
  unfolding write_messages
  accepted-append [] us w = refl
  accepted-append (t ∷ ts) us w = rw (accepted-append ts us (turn marshal t w)) (
      sym (
        append_assoc (accepted_by t w) (accepted marshal ts (turn marshal t w))
          (accepted marshal us (write_messages marshal ts (turn marshal t w)))))

  -- Arrivals only lengthen the queue.
  record Longer (more : List Message) (w x : Writing) : Type 0 where
    place : x.place ≡ w.place
    running : x.running ≡ w.running
    buffer : x.queue.buffer ≡ w.queue.buffer ++ more

  arrives-Longer :
      (ms : List Message) (w : Writing)
      → Longer (accepted marshal (map arrives ms) w) w (write_messages marshal (map arrives ms) w)
  unfolding write_messages turn
  arrives-Longer [] w = record {
    place = refl;
    running = refl;
    buffer = sym (append-nil w.queue.buffer);
  }
  arrives-Longer (m ∷ ms) w = elim (Bool-cases (has_room w.queue && not w.queue.closed)) [
    | inl room ↦
        let h = arrives-Longer ms (turn marshal (arrives m) w) in
        record {
          place = h.place ∙ rw room refl;
          running = h.running ∙ rw room refl;
          buffer = h.buffer ∙ rw room (append_assoc w.queue.buffer (m ∷ []) _);
        }
    | inr full ↦
        let h = arrives-Longer ms (turn marshal (arrives m) w) in
        record {
          place = h.place ∙ rw full refl;
          running = h.running ∙ rw full refl;
          buffer = h.buffer ∙ rw full refl;
        }
  ]

  -- The loop is at its select, with these messages in the queue.
  record IsBack (waiting : List Message) (v : Writing) : Type 0 where
    place : v.place ≡ at_select
    running : v.running ≡ true
    buffer : v.queue.buffer ≡ waiting

  close-IsBack :
      (bytes : Text) (waiting : List Message) (x : Writing)
      → x.running ≡ true
      → x.place ≡ in_frame bytes zero
      → x.queue.buffer ≡ waiting
      → IsBack waiting (turn marshal (goes_on true) x)
  unfolding turn
  close-IsBack bytes waiting x on inside e = record {
    place = rw (on, inside) refl;
    running = rw (on, inside) refl;
    buffer = rw (on, inside) e;
  }

  -- A round takes the first message.
  record Round (bytes : Text) (n : ℕ) (waiting : List Message) (y : Writing) : Type 0 where
    place : y.place ≡ in_frame bytes n
    running : y.running ≡ true
    buffer : y.queue.buffer ≡ waiting

  go_on-Round :
      (bytes : Text) (n : ℕ) (m : Message) (waiting : List Message) (x : Writing)
      → x.running ≡ true
      → x.place ≡ in_frame bytes (suc n)
      → x.queue.buffer ≡ m ∷ waiting
      → Round
          (bytes ++ b'\n' ∷ marshalled marshal (marshal m))
          n
          waiting
          (turn marshal (goes_on true) x)
  unfolding turn
  go_on-Round bytes n m waiting x on inside e = record {
    place = rw (on, inside, e) refl;
    running = rw (on, inside, e) refl;
    buffer = rw (on, inside, e) refl;
  }

  rounds-IsBack :
      (mss : List (List Message)) (bytes : Text) (old new : List Message) (w : Writing)
      → w.running ≡ true
      → w.place ≡ in_frame bytes (length old)
      → w.queue.buffer ≡ old ++ new
      → length mss ≡ suc (length old)
      → IsBack (new ++ accepted marshal (rounds mss) w) (write_messages marshal (rounds mss) w)
  unfolding write_messages
  rounds-IsBack [] bytes old new w on inside e many = absurd (omega (arith, many))
  rounds-IsBack (ms ∷ []) bytes [] new w on inside e many =
      let h = arrives-Longer ms w in
      rw
        (
          write_messages-append (map arrives ms) (goes_on true ∷ []) w,
          accepted-append (map arrives ms) (goes_on true ∷ []) w,
          append-nil (accepted marshal (map arrives ms) w),
        )
        (close-IsBack bytes (new ++ accepted marshal (map arrives ms) w)
          (write_messages marshal (map arrives ms) w) (h.running ∙ on) (h.place ∙ inside)
          (h.buffer ∙ rw e refl))
  rounds-IsBack (ms ∷ ns ∷ mss) bytes [] new w on inside e many = absurd (omega (arith, many))
  rounds-IsBack (ms ∷ mss) bytes (m ∷ old) new w on inside e many =
      let h = arrives-Longer ms w in
      let more : List Message = accepted marshal (map arrives ms) w in
      let x : Writing = write_messages marshal (map arrives ms) w in
      let k =
        go_on-Round bytes (length old) m ((old ++ new) ++ more) x (h.running ∙ on)
          (h.place ∙ inside) (h.buffer ∙ rw e refl) in
      rw
        (
          write_messages-append (map arrives ms) (goes_on true ∷ rounds mss) w,
          accepted-append (map arrives ms) (goes_on true ∷ rounds mss) w,
          sym (
              append_assoc new more
                (accepted marshal (rounds mss) (turn marshal (goes_on true) x))),
        )
        (rounds-IsBack mss (bytes ++ b'\n' ∷ marshalled marshal (marshal m)) old (new ++ more)
          (turn marshal (goes_on true) x) k.running k.place (k.buffer ∙ append_assoc old new more)
          (omega (arith, many)))

  first-in_frame :
      (m : Message) (rest : List Message) (bytes : Text) (w : Writing)
      → w.running ≡ true
      → w.place ≡ at_select
      → w.queue.buffer ≡ m ∷ rest
      → marshal m ≡ some bytes
      → Round bytes (length rest) rest (turn marshal (wakes true) w)
  unfolding turn
  first-in_frame m rest bytes w on select e made = record {
    place = rw (on, select, e, made) refl;
    running = rw (on, select, e, made) refl;
    buffer = rw (on, select, e, made) refl;
  }

  -- The frame that the loop begins with a message that has a JSON text ends, if the calls of the
  -- socket go well, after as many rounds as other messages were queued then, and one for its close,
  -- whatever messages arrive before each of them: the loop is at its select again, and the queue
  -- has the messages that it accepted since, in their order, and no other.
  pub write_messages-ends :
      (m : Message) (rest : List Message) (bytes : Text) (w : Writing)
      → w.running ≡ true
      → w.place ≡ at_select
      → w.queue.buffer ≡ m ∷ rest
      → marshal m ≡ some bytes
      → (mss : List (List Message)) → length mss ≡ suc (length rest)
      → ((write_messages marshal (wakes true ∷ rounds mss) w).place ≡ at_select)
        × ((write_messages marshal (wakes true ∷ rounds mss) w).running ≡ true)
        × ((write_messages marshal (wakes true ∷ rounds mss) w).queue.buffer
            ≡ accepted marshal (wakes true ∷ rounds mss) w)
  unfolding write_messages
  write_messages-ends m rest bytes w on select e made mss many =
      let k = first-in_frame m rest bytes w on select e made in
      let back =
        rounds-IsBack mss bytes rest [] (turn marshal (wakes true) w) k.running k.place
          (k.buffer ∙ sym (append-nil rest)) many in
      (back.place, back.running, back.buffer)
