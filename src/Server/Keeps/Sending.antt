-- ===== src/Server/Keeps/Sending.antt =====
-- handleSendMessage.
use room_chat.Prelude.{
  ℕ, ◌≡◌, true, false, text, text_eq, nat_eq, inl, inr, Bool-cases, Option-cases,
}
use room_chat.Prelude.Sets.{contains}
use room_chat.Prelude.Maps.{lookup}
use room_chat.Protocol.{Message, validation, forbidden, internal_server_error}
use room_chat.Connection.{has_room}
use room_chat.Elastic.{SearchClient, index_message}
use room_chat.Store.{Store, free}
use room_chat.Rooms.{channel_send_message}
use room_chat.Server.Replies.{internal_server_text, not_a_member_of_this}
use room_chat.Server.Messages.{send_in_channel, handle_send_message}
use room_chat.Server.Invariant.{IsValid}
use room_chat.Server.Steps.Sends.{channel_send_message-Queues}
use room_chat.Server.Steps.Valid.{
  Returns, with_mu, HasRoom, IsSound, IsSound-IsValid, IsSound-AfterQueues, refuse-Returns,
  respond-Returns,
}

module _ (search : SearchClient) (m : Message) (s : Store) (h : IsSound s) where
  send_in_channel-Returns :
      (p c : ℕ)
      → (s.queue_at p).closed ≡ false
      → has_room (s.queue_at p) ≡ true
      → Returns (send_in_channel search p c m (with_mu free s)) IsValid
  unfolding send_in_channel
  send_in_channel-Returns p c opened space =
      elim (Bool-cases (contains (s.channel_at c).users (s.client_at p).user)) [
        | inr other ↦ rw other (
            refuse-Returns p (not_a_member_of_this m.channel) m.request_id forbidden IsValid s
              (IsSound-AfterQueues h) opened space)
        | inl member ↦ rw member (elim (Option-cases (index_message search m)) [
          | inl stored ↦ rw stored (
              respond-Returns p (text "message sent") m.request_id (channel_send_message c m)
                IsValid (λ t o. channel_send_message-Queues c t o m) s h.conns
                (IsSound-AfterQueues h) opened space)
          | inr (e, failed) ↦ rw failed (
              refuse-Returns p internal_server_text m.request_id internal_server_error IsValid s
                (IsSound-AfterQueues h) opened space)
        ])
      ]

  -- Sending keeps the invariant.
  pub handle_send_message-IsValid :
      HasRoom s m.client_id → Returns (handle_send_message search m (with_mu free s)) IsValid
  unfolding handle_send_message
  handle_send_message-IsValid room = elim (Option-cases (lookup s.clients m.client_id)) [
    | inl none_found ↦ rw none_found (IsSound-IsValid h)
    | inr (p, e) ↦ rw e (
        let opened = h.conns.open_queue m.client_id p e in
        elim (Option-cases (lookup s.rooms m.channel)) [
          | inl none_found ↦ rw none_found (
              refuse-Returns p (not_a_member_of_this m.channel) m.request_id validation IsValid s
                (IsSound-AfterQueues h) opened (room p e))
          | inr (c, found) ↦ rw found (send_in_channel-Returns p c opened (room p e))
        ])
  ]
