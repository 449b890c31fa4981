-- ===== src/Server/Effects/Leaves.antt =====
-- Leaving a channel, and the end of a connection.
use room_chat.Prelude.{text_eq, nat_eq, ℕ, Option, none, some, List, [], ◌∷◌, Text, nat_beq}
use room_chat.Prelude.Maps.{lookup}
use room_chat.Protocol.{Message}
use room_chat.User
use room_chat.User.{Profile, add_channel, remove_channel, has_connections, username}
use room_chat.Channel.{has_user, remove_user, active_users_count}
use room_chat.Store.{Store, Exec, pure, modify, set_user}
use room_chat.Sessions.{session_remove, remove_client_from_user}
use room_chat.Rooms.{
  ChannelError, user_already_exists, not_a_member, channel_does_not_exist, channel_remove_user,
  registry_delete,
}
use room_chat.Server.Membership.{
  cleanup_empty_channel, leave_as, leave_member, leave_channel, handle_leave_channel,
}
use room_chat.Server.Clients
use room_chat.Server.Clients.{
  insert_client, leave_one, leave_each, remove_user_from_all_channels, delete_client, drop_client,
  detach_client,
}
use room_chat.Server.Effects.{
  Ends, done-Ends, Allows, AllowsUsers, AllowsChannels, AllowsRegistry, AllowsClose, Ends-after,
  Ends-continue, Ends-if, Ends-option, lock-Ends, unlock-Ends, rlock-Ends, runlock-Ends,
  send_error-Ends, send_response-Ends, close-Ends,
}
use room_chat.Server.Effects.Sends.{send_leave_message-Ends}

module _ {R : Store → Store → Type 0} (a : Allows R) where
  module _ (users : AllowsUsers R) (channels : AllowsChannels R) where
    cleanup_empty_channel-Ends :
        (n : Text) (c : ℕ) (s : Store) → Ends (cleanup_empty_channel n c s) (R s)
    unfolding cleanup_empty_channel registry_delete
    cleanup_empty_channel-Ends n c s = Ends-continue a (lock-Ends a s) λ _ t.
        Ends-continue a
          (Ends-if a (nat_beq (active_users_count (t.channel_at c)) 0) _ _ t
            (done-Ends (channels _ _ _ t)) (done-Ends (a.same t)))
          (λ _ u. unlock-Ends a u)

    pub channel_remove_user-Ends :
        (c : ℕ) (w : Text) (s : Store) → Ends (channel_remove_user c w s) (R s)
    unfolding channel_remove_user
    channel_remove_user-Ends c w s =
        Ends-option a (remove_user w (s.channel_at c)) _ _ s (done-Ends (a.same s))
          (λ ch. done-Ends (channels _ _ _ s))

    leave_as-Ends : (p c : ℕ) (w : Text) (m : Message) (s : Store) → Ends (leave_as p c w m s) (R s)
    unfolding leave_as
    leave_as-Ends p c w m s =
        Ends-option a (lookup s.sessions w) _ _ s (record { at = tt })
          λ u. Ends-after a s _ _ (users _ _ _ s) (
            Ends-continue a (send_response-Ends a p _ _ _) λ _ t.
              Ends-continue a (send_leave_message-Ends a c _ t)
                λ _ v. cleanup_empty_channel-Ends m.channel c v)

    left-Ends :
        (p c : ℕ) (w : Text) (m : Message) (failed : Option ChannelError) (s : Store)
        → Ends
            ((elim failed as (λ _. Exec (Unit {0})) [
              | some not_a_member ↦ pure tt
              | _ ↦ leave_as p c w m
            ])
              s)
            (R s)
    left-Ends p c w m (some not_a_member) s = done-Ends (a.same s)
    left-Ends p c w m (some user_already_exists) s = leave_as-Ends p c w m s
    left-Ends p c w m (some channel_does_not_exist) s = leave_as-Ends p c w m s
    left-Ends p c w m none s = leave_as-Ends p c w m s

    leave_member-Ends :
        (p c : ℕ) (w : Text) (m : Message) (s : Store) → Ends (leave_member p c w m s) (R s)
    unfolding leave_member
    leave_member-Ends p c w m s =
        Ends-continue a (channel_remove_user-Ends c w s) (λ failed t. left-Ends p c w m failed t)

    leave_channel-Ends : (p c : ℕ) (m : Message) (s : Store) → Ends (leave_channel p c m s) (R s)
    unfolding leave_channel
    leave_channel-Ends p c m s =
        Ends-if a (has_user (s.client_at p).user (s.channel_at c)) _ _ s
          (leave_member-Ends p c (s.client_at p).user m s) (send_error-Ends a p _ _ _ s)

    -- Leaving a channel.
    pub handle_leave_channel-Ends :
        (m : Message) (s : Store) → Ends (handle_leave_channel m s) (R s)
    unfolding handle_leave_channel
    handle_leave_channel-Ends m s = Ends-continue a (rlock-Ends a s) λ _ t.
        Ends-option a (lookup t.clients m.client_id) _ _ t (runlock-Ends a t) λ p.
          Ends-continue a (runlock-Ends a t) λ _ v.
            Ends-option a (lookup t.rooms m.channel) _ _ v (send_error-Ends a p _ _ _ v)
              (λ c. leave_channel-Ends p c m v)

    leave_one-Ends : (u : ℕ) (w n : Text) (s : Store) → Ends (leave_one u w n s) (R s)
    unfolding leave_one
    leave_one-Ends u w n s = Ends-continue a (rlock-Ends a s) λ _ t.
        Ends-option a (lookup t.rooms n) _ _ t (done-Ends (users _ _ _ t)) λ c.
          Ends-continue a (channel_remove_user-Ends c w t) λ failed v.
            Ends-option a failed _ _ v
              (Ends-after a v _ _ (users _ _ _ v) (
                Ends-continue a (runlock-Ends a _) λ _ x.
                  Ends-continue a (send_leave_message-Ends a c w x)
                    λ _ y. cleanup_empty_channel-Ends n c y))
              (λ e. done-Ends (a.same v))

    leave_each-Ends :
        (u : ℕ) (w : Text) (ns : List Text) (s : Store) → Ends (leave_each u w ns s) (R s)
    unfolding leave_each
    leave_each-Ends u w [] s = done-Ends (a.same s)
    leave_each-Ends u w (n ∷ ns) s =
        Ends-continue a (leave_one-Ends u w n s) (λ _ t. leave_each-Ends u w ns t)

    remove_client_from_user-Ends :
        (w : Text) (p : ℕ) (s : Store) → Ends (remove_client_from_user w p s) (R s)
    unfolding remove_client_from_user session_remove
    remove_client_from_user-Ends w p s =
        Ends-option a (lookup s.sessions w) _ _ s (done-Ends (a.same s)) λ u.
          let t = set_user u (User.remove_client p) s in
          Ends-after a s t _ (users t.user_at t.next_user t.sessions s) (
            Ends-if a (has_connections (t.user_at u)) (pure tt) (modify (session_remove w)) t
              (done-Ends (a.same t))
              (done-Ends (users t.user_at t.next_user (session_remove w t).sessions t)))

    pub detach_client-Ends : (w : Text) (p : ℕ) (s : Store) → Ends (detach_client w p s) (R s)
    unfolding detach_client remove_user_from_all_channels
    detach_client-Ends w p s = Ends-option a (lookup s.sessions w) _ _ s (done-Ends (a.same s)) λ u.
        Ends-continue a (remove_client_from_user-Ends w p s) λ _ t.
          Ends-if a (has_connections (t.user_at u)) _ _ t (done-Ends (a.same t))
            (leave_each-Ends u _ _ t)

    module _ (clients : AllowsRegistry R) (closes : AllowsClose R) where
      drop_client-Ends : (p : ℕ) (s : Store) → Ends (drop_client p s) (R s)
      unfolding drop_client delete_client
      drop_client-Ends p s = Ends-continue a (lock-Ends a s) λ _ t.
          Ends-continue a
            (Ends-option a (lookup t.clients (t.client_at p).conn_id) _ _ t (done-Ends (a.same t))
              (λ q. Ends-after a t _ _ (clients _ t) (close-Ends a closes p _)))
            (λ _ v. unlock-Ends a v)

      -- The end of a connection, and its beginning.
      pub remove_client-Ends : (p : ℕ) (s : Store) → Ends (Clients.remove_client p s) (R s)
      unfolding Clients.remove_client
      remove_client-Ends p s =
          Ends-continue a (drop_client-Ends p s) (λ _ t. detach_client-Ends _ p t)

      pub add_client-Ends : (p : ℕ) (s : Store) → Ends (Clients.add_client p s) (R s)
      unfolding Clients.add_client insert_client
      add_client-Ends p s =
          Ends-continue a (lock-Ends a s) λ _ t. Ends-after a t _ _ (clients _ t) (unlock-Ends a _)
