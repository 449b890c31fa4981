-- ===== src/Server/Steps/Sends.antt =====
-- The sends of the handlers: under the invariant none of them meets a closed queue.
use room_chat.Prelude.{ℕ, ◌≡◌, true, false, Text, nat_eq, arith}
use room_chat.Prelude.Maps.{update}
use room_chat.Protocol.{Message}
use room_chat.Connection.{Queue, has_room, push}
use room_chat.Channel.{welcome_message, leave_message, push_message}
use room_chat.Store.{Store, Outcome, done, send}
use room_chat.Rooms.{channel_send, send_welcome_message, send_leave_message, channel_send_message}
use room_chat.Sending.{SessionsOpen, offer_all, offer_all-closed, recipients, send_to_members_lem}
use room_chat.Server.Invariant.{Conns}
use room_chat.Server.Steps.Frame.{SameClosed}

-- The run succeeds and only queues messages.
abbrev pub Queues : Store → Outcome (Unit {0}) → Type 0
Queues s o = (q : ℕ → Queue) × (o ≡ done tt (record s { queue_at = q })) × SameClosed q s.queue_at

SameClosed-update : (q : ℕ → Queue) (p : ℕ) (m : Message) → SameClosed (update q p (push m (q p))) q
SameClosed-update q p m r = ground arith

-- The blocking send to an open queue with room.
pub send-Queues :
    (p : ℕ) (m : Message) (s : Store)
    → (s.queue_at p).closed ≡ false
    → has_room (s.queue_at p) ≡ true
    → Queues s (send p m s)
unfolding send
send-Queues p m s h r =
    (update s.queue_at p (push m (s.queue_at p)), rw (h, r), SameClosed-update s.queue_at p m)

pub Conns-SessionsOpen : {s : Store} → Conns s → SessionsOpen s
Conns-SessionsOpen {s} h w p e = h.open_queue (s.client_at p).conn_id p (h.attached w p e).0

module _ (c : ℕ) (s : Store) (h : SessionsOpen s) where
  pub channel_send-Queues : (m : Message) → Queues s (channel_send c m s)
  unfolding channel_send
  channel_send-Queues m = (
    offer_all (recipients s.sessions s.user_at (s.channel_at c).users) m s.queue_at,
    send_to_members_lem (s.channel_at c).users m s h,
    offer_all-closed (recipients s.sessions s.user_at (s.channel_at c).users) m s.queue_at,
  )

  pub send_welcome_message-Queues : (w : Text) → Queues s (send_welcome_message c w s)
  unfolding send_welcome_message
  send_welcome_message-Queues w = channel_send-Queues (welcome_message (s.channel_at c).name w)

  pub send_leave_message-Queues : (w : Text) → Queues s (send_leave_message c w s)
  unfolding send_leave_message
  send_leave_message-Queues w = channel_send-Queues (leave_message (s.channel_at c).name w)

  pub channel_send_message-Queues : (m : Message) → Queues s (channel_send_message c m s)
  unfolding channel_send_message
  channel_send_message-Queues m = channel_send-Queues (push_message (s.channel_at c).name m)
