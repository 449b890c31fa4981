-- ===== src/Connection/Writing.antt =====
-- internal/connection/client.go, WriteMessages: the goroutine that writes a connection's queue to
-- its WebSocket. The socket and the JSON encoder are parameters.
use room_chat.Prelude.{
  ℕ, zero, suc, length, Bool, true, false, ◌&&◌, not, Option, none, some, List, [], ◌∷◌, ◌++◌, Text,
  if◌then◌else◌,
}
use room_chat.Protocol.{Message}
use room_chat.Connection.{Queue, has_room, push}

pub data Frame : Type 0 where
  text_frame : Text → Frame
  ping close_frame : Frame

-- Where the loop is. `in_frame bytes n`: in the loop over the queued messages, with the text that
-- the frame has so far and the rounds that are left; with none left, at the close of the frame.
pub data Place : Type 0 where
  at_select : Place
  in_frame : Text → ℕ → Place

-- A queue with its writer: the frames written so far, and whether the loop still runs.
pub record Writing : Type 0 where
  pub queue : Queue
  pub frames : List Frame
  pub place : Place
  pub running : Bool

-- What happens to them. `arrives`: another goroutine sends a message, if there is room. `closes`:
-- the server closes the queue. `wakes` and `ticks`: the loop takes one of its two cases. `goes_on`:
-- a round of the loop within a frame, or the close of the frame. The flags say which calls of the
-- socket go well. Where the loop is elsewhere, nothing happens.
pub data Turn : Type 0 where
  arrives : Message → Turn
  closes : Turn
  wakes goes_on ticks : Bool → Turn

abbrev pub stop : Writing → Writing
stop w = record w { running = false }

abbrev pub write_frame : Frame → Writing → Writing
write_frame f w = record w { frames = w.frames ++ f ∷ [] }

abbrev pub take : List Message → Place → Writing → Writing
take rest place w = record w {
  queue = record { buffer = rest; closed = w.queue.closed };
  place = place;
}

module _ (marshal : Message → Option Text) where
  -- What cannot be marshalled leaves its newline.
  abbrev pub marshalled : Option Text → Text
  marshalled none = []
  marshalled (some bytes) = bytes

  -- The frame is written where its writer can be closed.
  abbrev pub flush : Bool → Text → Writing → Writing
  flush true bytes w = write_frame (text_frame bytes) (record w { place = at_select })
  flush false bytes w = stop w

  -- The first message of a frame. The rounds are as many as there are messages queued then.
  abbrev pub write_first : Option Text → List Message → Writing → Writing
  write_first none rest w = stop (take rest at_select w)
  write_first (some bytes) rest w = take rest (in_frame bytes (length rest)) w

  -- The case of `c.send`, given what is in the queue. An empty queue that is open keeps the loop
  -- waiting, one that is closed ends it, whether or not the close frame is written.
  abbrev pub receive : Bool → List Message → Writing → Writing
  receive opens [] w =
      if w.queue.closed then stop (if opens then write_frame close_frame w else w) else w
  receive opens (m ∷ rest) w =
      if opens then write_first (marshal m) rest w else stop (take rest at_select w)

  -- A round, given what is in the queue, which has a message, as nobody else takes one.
  abbrev pub write_queued : Text → ℕ → List Message → Writing → Writing
  write_queued bytes n [] w = w
  write_queued bytes n (m ∷ rest) w =
      take rest (in_frame (bytes ++ b'\n' ∷ marshalled (marshal m)) n) w

  abbrev pub go_on : Bool → Place → Writing → Writing
  go_on goes_well at_select w = w
  go_on goes_well (in_frame bytes zero) w = flush goes_well bytes w
  go_on goes_well (in_frame bytes (suc n)) w = write_queued bytes n w.queue.buffer w

  abbrev pub select : (Writing → Writing) → Place → Writing → Writing
  select chosen at_select w = chosen w
  select chosen (in_frame bytes n) w = w

  abbrev pub ping_peer : Bool → Writing → Writing
  ping_peer sends w = if sends then write_frame ping w else stop w

  unfoldable pub turn : Turn → Writing → Writing
  turn (arrives m) w =
      if has_room w.queue && not w.queue.closed then record w { queue = push m w.queue } else w
  turn closes w = record w { queue = record { buffer = w.queue.buffer; closed = true } }
  turn (wakes opens) w =
      if w.running then select (λ x. receive opens x.queue.buffer x) w.place w else w
  turn (goes_on goes_well) w = if w.running then go_on goes_well w.place w else w
  turn (ticks sends) w = if w.running then select (ping_peer sends) w.place w else w

  unfoldable pub write_messages : List Turn → Writing → Writing
  unfolding turn
  write_messages [] w = w
  write_messages (t ∷ ts) w = write_messages ts (turn t w)
