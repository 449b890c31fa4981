-- ===== src/Server/Effects/Sends.antt =====
-- Pushes, and the sending of a message.
use room_chat.Prelude.{text_eq, nat_eq, ℕ, List, [], ◌∷◌, Text}
use room_chat.Prelude.Maps.{lookup}
use room_chat.Protocol.{Message}
use room_chat.Channel.{has_user}
use room_chat.Elastic.{SearchClient, index_message}
use room_chat.Store.{Store}
use room_chat.Sessions.{send_to_each, send_event, send_message_to}
use room_chat.Rooms.{
  send_to_members, channel_send, send_welcome_message, send_leave_message, channel_send_message,
}
use room_chat.Server.Messages.{send_in_channel, handle_send_message}
use room_chat.Server.Effects.{
  Ends, done-Ends, Allows, Ends-continue, Ends-if, Ends-option, rlock-Ends, runlock-Ends,
  try_send-Ends, send_error-Ends, send_response-Ends,
}

module _ {R : Store → Store → Type 0} (a : Allows R) where
  send_to_each-Ends : (ps : List ℕ) (m : Message) (s : Store) → Ends (send_to_each ps m s) (R s)
  unfolding send_to_each
  send_to_each-Ends [] m s = done-Ends (a.same s)
  send_to_each-Ends (p ∷ ps) m s =
      Ends-continue a (try_send-Ends a p m s) (λ _ t. send_to_each-Ends ps m t)

  send_message_to-Ends : (w : Text) (m : Message) (s : Store) → Ends (send_message_to w m s) (R s)
  unfolding send_message_to send_event
  send_message_to-Ends w m s =
      Ends-option a (lookup s.sessions w) _ _ s (done-Ends (a.same s))
        (λ u. send_to_each-Ends (s.user_at u).connections m s)

  send_to_members-Ends :
      (ws : List Text) (m : Message) (s : Store) → Ends (send_to_members ws m s) (R s)
  unfolding send_to_members
  send_to_members-Ends [] m s = done-Ends (a.same s)
  send_to_members-Ends (w ∷ ws) m s =
      Ends-continue a (send_message_to-Ends w m s) (λ _ t. send_to_members-Ends ws m t)

  channel_send-Ends : (c : ℕ) (m : Message) (s : Store) → Ends (channel_send c m s) (R s)
  unfolding channel_send
  channel_send-Ends c m s = send_to_members-Ends (s.channel_at c).users m s

  pub send_welcome_message-Ends :
      (c : ℕ) (w : Text) (s : Store) → Ends (send_welcome_message c w s) (R s)
  unfolding send_welcome_message
  send_welcome_message-Ends c w s = channel_send-Ends c _ s

  pub send_leave_message-Ends :
      (c : ℕ) (w : Text) (s : Store) → Ends (send_leave_message c w s) (R s)
  unfolding send_leave_message
  send_leave_message-Ends c w s = channel_send-Ends c _ s

  channel_send_message-Ends :
      (c : ℕ) (m : Message) (s : Store) → Ends (channel_send_message c m s) (R s)
  unfolding channel_send_message
  channel_send_message-Ends c m s = channel_send-Ends c _ s

  module _ (search : SearchClient) (m : Message) where
    send_in_channel-Ends : (p c : ℕ) (s : Store) → Ends (send_in_channel search p c m s) (R s)
    unfolding send_in_channel
    send_in_channel-Ends p c s =
        Ends-if a (has_user (s.client_at p).user (s.channel_at c)) _ _ s
          (Ends-option a (index_message search m) _ _ s
            (Ends-continue a (send_response-Ends a p _ _ s)
              (λ _ t. channel_send_message-Ends c m t))
            (λ e. send_error-Ends a p _ _ _ s))
          (send_error-Ends a p _ _ _ s)

    -- Sending a message.
    pub handle_send_message-Ends : (s : Store) → Ends (handle_send_message search m s) (R s)
    unfolding handle_send_message
    handle_send_message-Ends s = Ends-continue a (rlock-Ends a s) λ _ t.
        Ends-option a (lookup t.clients m.client_id) _ _ t (runlock-Ends a t) λ p.
          Ends-continue a (runlock-Ends a t) λ _ u.
            Ends-option a (lookup t.rooms m.channel) _ _ u (send_error-Ends a p _ _ _ u)
              (λ c. send_in_channel-Ends p c u)
