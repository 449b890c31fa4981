-- ===== src/Server/Effects/Joins.antt =====
-- Joining a channel.
use room_chat.Prelude.{text_eq, nat_eq, ℕ, Text}
use room_chat.Prelude.Maps.{lookup}
use room_chat.Protocol.{Message}
use room_chat.Channel.{add_user}
use room_chat.Store.{Store}
use room_chat.Rooms.{
  ChannelError, user_already_exists, allocate_channel, get_or_create, channel_add_user,
  registry_add_user,
}
use room_chat.Server.Membership.{refuse_join, join_into, join_as, handle_join_channel}
use room_chat.Server.Effects.{
  Ends, done-Ends, Allows, AllowsUsers, AllowsChannels, Ends-after, Ends-continue, Ends-option,
  lock-Ends, unlock-Ends, send_error-Ends, send_response-Ends,
}
use room_chat.Server.Effects.Sends.{send_welcome_message-Ends}

module _ {R : Store → Store → Type 0} (a : Allows R) where
  module _ (users : AllowsUsers R) (channels : AllowsChannels R) where
    channel_add_user-Ends : (c : ℕ) (w : Text) (s : Store) → Ends (channel_add_user c w s) (R s)
    unfolding channel_add_user
    channel_add_user-Ends c w s =
        Ends-option a (add_user w (s.channel_at c)) _ _ s (done-Ends (a.same s))
          (λ ch. done-Ends (channels _ _ _ s))

    pub registry_add_user-Ends : (n w : Text) (s : Store) → Ends (registry_add_user n w s) (R s)
    unfolding registry_add_user
    registry_add_user-Ends n w s =
        Ends-option a (lookup s.rooms n) _ _ s (done-Ends (a.same s))
          (λ c. channel_add_user-Ends c w s)

    pub get_or_create-Ends : (n : Text) (s : Store) → Ends (get_or_create n s) (R s)
    unfolding get_or_create allocate_channel
    get_or_create-Ends n s =
        Ends-option a (lookup s.rooms n) _ _ s (done-Ends (channels _ _ _ s))
          (λ c. done-Ends (a.same s))

    refuse_join-Ends :
        (p : ℕ) (m : Message) (e : ChannelError) (s : Store) → Ends (refuse_join p m e s) (R s)
    unfolding refuse_join
    refuse_join-Ends p m user_already_exists s = send_error-Ends a p _ _ _ s
    refuse_join-Ends p m _ s = send_error-Ends a p _ _ _ s

    join_into-Ends : (u p c : ℕ) (m : Message) (s : Store) → Ends (join_into u p c m s) (R s)
    unfolding join_into
    join_into-Ends u p c m s = Ends-continue a (registry_add_user-Ends m.channel _ s) λ failed t.
        Ends-option a failed _ _ t
          (Ends-after a t _ _ (users _ _ _ t) (
            Ends-continue a (unlock-Ends a _) λ _ v.
              Ends-continue a (send_response-Ends a p _ _ v)
                λ _ x. send_welcome_message-Ends a c _ x))
          (λ e. Ends-continue a (unlock-Ends a t) (λ _ v. refuse_join-Ends p m e v))

    -- Joining a channel.
    pub handle_join_channel-Ends : (m : Message) (s : Store) → Ends (handle_join_channel m s) (R s)
    unfolding handle_join_channel join_as
    handle_join_channel-Ends m s =
        Ends-option a (lookup s.sessions m.user) _ _ s (done-Ends (a.same s)) λ u.
          Ends-continue a (lock-Ends a s) λ _ t.
            Ends-option a (lookup t.clients m.client_id) _ _ t (unlock-Ends a t) λ p.
              Ends-continue a (get_or_create-Ends m.channel t) (λ c v. join_into-Ends u p c m v)
