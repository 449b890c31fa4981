-- ===== src/Server/Messages.antt =====
-- internal/server/server.go, handleSendMessage.
use room_chat.Prelude.{ℕ, none, some, text_eq, if◌then◌else◌}
use room_chat.Protocol.{Message, validation, forbidden, internal_server_error}
use room_chat.Channel.{has_user}
use room_chat.Elastic.{SearchClient, index_message}
use room_chat.Store.{Exec, ◌>>=◌, ◌>>◌, gets, rlock, runlock}
use room_chat.Rooms.{get, channel_send_message}
use room_chat.Server.Replies.{
  internal_server_text, not_a_member_of_this, send_error, send_response, find_client,
}
use room_chat.Prelude.{text}

module _ (search : SearchClient) where
  -- The sender `p` in the channel `c`.
  unfoldable pub send_in_channel : ℕ → ℕ → Message → Exec (Unit {0})
  send_in_channel p c m = do
    client ← gets (λ s. s.client_at p)
    ch ← gets (λ s. s.channel_at c)
    if has_user client.user ch
        then elim (index_message search m) [
          | some e ↦ send_error p internal_server_text m.request_id internal_server_error
          | none ↦ do send_response p (text "message sent") m.request_id; channel_send_message c m
        ]
        else send_error p (not_a_member_of_this m.channel) m.request_id forbidden

  unfoldable pub handle_send_message : Message → Exec (Unit {0})
  unfolding send_in_channel
  handle_send_message m = do
    rlock
    found ← find_client m.client_id
    elim found [
      | none ↦ runlock
      | some p ↦ do
        channel ← get m.channel
        runlock
        elim channel [
          | none ↦ send_error p (not_a_member_of_this m.channel) m.request_id validation
          | some c ↦ send_in_channel p c m
        ]
    ]
