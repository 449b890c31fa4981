-- ===== src/Connection.antt =====
-- internal/connection/client.go: one WebSocket connection, its login state, its outgoing Go
-- channel, and what the reading goroutine makes of one frame.
pub mod Gate
pub mod Writing
pub mod Lines
pub mod Flushing
pub mod Frames
use room_chat.Prelude.{
  ℕ, ◌*◌, ◌/◌, Bool, true, false, not, ◌&&◌, Option, none, some, List, [], ◌∷◌, ◌++◌, Text, text,
  ltb, length, if◌then◌else◌, ◌⊎◌, inl, inr,
}
use room_chat.Protocol.{Message, error, zero_message, is_login}

-- `authenticated` is set in the same `authOnce.Do` that sets `user`, so it also says that the
-- sync.Once has run.
pub record Client : Type 0 where
  pub conn_id : Text
  pub user : Text
  pub authenticated : Bool

unfoldable pub new_client : Text → Client
new_client uuid = record { conn_id = uuid; user = []; authenticated = false }

unfoldable pub authenticate : Text → Client → Client
authenticate username c =
    if c.authenticated then c else record c { user = username; authenticated = true }

-- The Go channel `send`.
pub record Queue : Type 0 where
  pub buffer : List Message
  pub closed : Bool

abbrev pub capacity : ℕ
capacity = 256

unfoldable pub empty_queue : Queue
empty_queue = record { buffer = []; closed = false }

abbrev pub has_room : Queue → Bool
has_room q = ltb (length q.buffer) capacity

abbrev pub push : Message → Queue → Queue
push m q = record q { buffer = q.buffer ++ m ∷ [] }

-- What the loop body does with a frame: it answers the client itself, or hands the message on.
pub data ReadStep : Type 0 where
  reply dispatch : Message → ReadStep

abbrev pub error_reply : Text → Message
error_reply content = record zero_message {
  action = error;
  response = some (record { content = content; success = false; resp_err = none });
}

-- `Frame`, json.Unmarshal and validator's `Struct` are the libraries': each either succeeds or
-- gives the error's text. `uuid` and `now` are the identifier and the time that the step draws.
module _ {Frame : Type 0} (unmarshal : Frame → Text ⊎ Message)
    (validate : Message → Option Text) where
  stamp : Client → Text → ℕ → Message → Message
  stamp c uuid now m = record m {
    user = c.user;
    client_id = c.conn_id;
    id = uuid;
    created_at = now;
  }

  check : Client → Text → ℕ → Message → ReadStep
  unfolding stamp
  check c uuid now m =
      if not (is_login m.action) && not c.authenticated
      then reply (error_reply (text "You are not logged in"))
      else elim (validate m) [
        | some e ↦ reply (error_reply (text "Message validation failed: " ++ e))
        | none ↦ dispatch (stamp c uuid now m)
      ]

  unfoldable pub read_message : Client → Text → ℕ → Frame → ReadStep
  unfolding check is_login
  read_message c uuid now frame = elim (unmarshal frame) [
    | inl e ↦ reply (error_reply (text "Message validation failed: " ++ e))
    | inr m ↦ check c uuid now m
  ]
