-- ===== src/Server/Delivery.antt =====
-- Who gets a message that handleSendMessage sends.
use room_chat.Prelude.{
  ℕ, ◌≡◌, Bool, true, some, none, text, text_eq, nat_eq, ◌&&◌, if◌then◌else◌, arith,
}
use room_chat.Prelude.Sets.{contains}
use room_chat.Prelude.Maps.{lookup, update}
use room_chat.Protocol.{Message}
use room_chat.Connection.{push, has_room}
use room_chat.Channel.{push_message}
use room_chat.Elastic.{SearchClient, index_message}
use room_chat.Store.{Store, done, free, offer, send}
use room_chat.Rooms.{channel_send_message, channel_send}
use room_chat.Sending.{offer_all, offer_all_lem, recipients, send_to_members_lem}
use room_chat.Server.Replies.{send_response, response_message}
use room_chat.Server.Messages.{send_in_channel, handle_send_message}
use room_chat.Server.Invariant.{is_attached, is_member, members_of}
use room_chat.Server.Recipients.{contains-recipients, recipients-Distinct}
use room_chat.Server.Steps.Sends.{Conns-SessionsOpen}
use room_chat.Server.Steps.Valid.{Returns, with_mu, IsSound}

choose_both {ℓ} :
    {A : Type ℓ} (a b c : Bool) (x y : A)
    → a ≡ c
    → (if a && b then x else y) ≡ (if b && c then x else y)
choose_both a b c x y e = ground (arith, e)

module _ (search : SearchClient) (m : Message) (s : Store) (h : IsSound s) (p c : ℕ)
    (registered : lookup s.clients m.client_id ≡ some p) (space : has_room (s.queue_at p) ≡ true)
    (room : lookup s.rooms m.channel ≡ some c) where
  -- A message of a registered member whose queue has room, to a channel that exists, which is
  -- stored: the answer is queued for the sender, and then the push is offered to the connections of
  -- the members, one after the other. Nothing else changes.
  pub handle_send_message-offers :
      contains (s.channel_at c).users (s.client_at p).user ≡ true
      → index_message search m ≡ none
      → handle_send_message search m (with_mu free s)
        ≡ done tt (
            with_mu free (record s {
              queue_at =
                  offer_all
                    (recipients s.sessions s.user_at (s.channel_at c).users)
                    (push_message (s.channel_at c).name m)
                    (update s.queue_at p
                      (push (response_message (text "message sent") m.request_id) (s.queue_at p)));
            }))
  unfolding handle_send_message send_in_channel send_response send channel_send_message channel_send
  handle_send_message-offers member stored =
      rw (registered, room, member, stored, h.conns.open_queue m.client_id p registered, space)
        (send_to_members_lem (s.channel_at c).users (push_message (s.channel_at c).name m) _
          (λ w q e. ground (arith, Conns-SessionsOpen h.conns w q e)))

  -- A message of a registered member whose queue has room, to a channel that exists, which is
  -- stored: any registered connection gets the push, once, where its queue has room, exactly if it
  -- is logged in and its user is a member of the channel; the sender's queue has the answer before
  -- it, and the queue of any other registered connection is as it was.
  pub handle_send_message-delivers :
      contains (s.channel_at c).users (s.client_at p).user ≡ true
      → index_message search m ≡ none
      → (q : ℕ) → lookup s.clients (s.client_at q).conn_id ≡ some q
      → let answered =
          update s.queue_at p
            (push (response_message (text "message sent") m.request_id) (s.queue_at p)) in
        Returns (handle_send_message search m (with_mu free s)) (λ t. t.queue_at q ≡ (
          if (s.client_at q).authenticated && is_member s m.channel (s.client_at q).user
          then offer (push_message m.channel m) (answered q)
          else answered q))
  handle_send_message-delivers member stored q known =
      rw
        (
          handle_send_message-offers member stored,
          offer_all_lem _ (push_message (s.channel_at c).name m)
              (update s.queue_at p
                (push (response_message (text "message sent") m.request_id) (s.queue_at p)))
              q
              (recipients-Distinct s h.conns (s.channel_at c).users
                (h.rooms.members_distinct m.channel c room)),
          contains-recipients s h.conns (s.channel_at c).users q,
          h.conns.logged_in (s.client_at q).conn_id q known,
          h.rooms.room_named m.channel c room,
        )
        (choose_both _ (is_attached s (s.client_at q).user q) _ _ _ (rw (room, members_of)))
