-- ===== src/Server/Stalls/Full.antt =====
-- A request of a connection whose queue is full: no handler comes to its end, since each answers.
use room_chat.Prelude.{
  ℕ, ◌≡◌, false, true, none, some, Text, text_beq, [], text_eq, nat_eq, arith, inl, inr, Bool-cases,
  Option-cases,
}
use room_chat.Prelude.Maps.{lookup}
use room_chat.Protocol.{Message}
use room_chat.Connection.{has_room, authenticate}
use room_chat.Prelude.Sets.{erase}
use room_chat.User.{Profile, add_channel}
use room_chat.Channel.{has_user, remove_user}
use room_chat.Auth.{Parsed, credentials, not_ok, out_of_range, parse_basic_auth}
use room_chat.Users.{
  UserError, user_not_found, invalid_password, Result, ok, err, Repository, Bcrypt,
}
use room_chat.Store.{Store, done, free, writing, set_channel, set_user, set_client}
use room_chat.Rooms.{ChannelError, user_already_exists, channel_remove_user}
use room_chat.Server.Login.{
  refuse_login, accept_login, login_result, login_parsed, login_client, handle_login,
}
use room_chat.Server.Membership.{
  refuse_join, join_into, join_as, handle_join_channel, leave_as, leave_member, leave_channel,
  handle_leave_channel,
}
use room_chat.Server.Steps.Valid.{with_mu}
use room_chat.Server.Effects.{unlock-Ends}
use room_chat.Server.Effects.Logins.{add_client_to_user-Ends}
use room_chat.Server.Effects.Joins.{registry_add_user-Ends, get_or_create-Ends}
use room_chat.Server.Stalls.Never.{
  Never, first-Never, if-Never, option-Never, StaysFull-Allows, users-Stay, channels-Stay,
  later-Never, error-Never, response-Never,
}

pub removed :
    (c : ℕ) (w : Text) (s : Store)
    → has_user w (s.channel_at c) ≡ true
    → channel_remove_user c w s
      ≡ done none
          (set_channel c (record (s.channel_at c) { users = erase w (s.channel_at c).users }) s)
unfolding channel_remove_user remove_user
removed c w s member = ground arith

module _ (p : ℕ) where
  module _ (m : Message) where
    refuse_join-Never :
        (e : ChannelError) (s : Store)
        → has_room (s.queue_at p) ≡ false
        → Never (refuse_join p m e s)
    unfolding refuse_join
    refuse_join-Never user_already_exists s full = error-Never p _ _ _ s full
    refuse_join-Never _ s full = error-Never p _ _ _ s full

    join_into-Never :
        (u c : ℕ) (s : Store) → has_room (s.queue_at p) ≡ false → Never (join_into u p c m s)
    unfolding join_into
    join_into-Never u c s full =
        later-Never p s _ _ full
          (registry_add_user-Ends (StaysFull-Allows p) (users-Stay p) (channels-Stay p) _ _ s)
          λ failed t full'.
            option-Never failed _ _ t
              (later-Never p (set_user u (add_channel m.channel) t) _ _ full'
                (unlock-Ends (StaysFull-Allows p) _)
                (λ _ v full''. first-Never _ _ (response-Never p _ _ v full'')))
              (λ e.
                later-Never p t _ _ full' (unlock-Ends (StaysFull-Allows p) t)
                  (λ _ v full''. refuse_join-Never e v full''))

    -- A join request for a user who is online.
    pub handle_join_channel-Never :
        (s : Store) (u : ℕ)
        → lookup s.sessions m.user ≡ some u
        → lookup s.clients m.client_id ≡ some p
        → has_room (s.queue_at p) ≡ false
        → Never (handle_join_channel m (with_mu free s))
    unfolding handle_join_channel join_as
    handle_join_channel-Never s u online known full =
        rw (online, known)
          (later-Never p (with_mu writing s) _ _ full
            (get_or_create-Ends (StaysFull-Allows p) (users-Stay p) (channels-Stay p) m.channel _)
            (λ c t full'. join_into-Never u c t full'))

    leave_as-Never :
        (c : ℕ) (w : Text) (s : Store)
        → has_room (s.queue_at p) ≡ false
        → Never (leave_as p c w m s)
    unfolding leave_as
    leave_as-Never c w s full = elim (Option-cases (lookup s.sessions w)) [
      | inl offline ↦ rw offline (record { at = tt })
      | inr (u, online) ↦ rw online (first-Never _ _ (response-Never p _ _ _ full))
    ]

    left-Never :
        (c : ℕ) (s : Store)
        → has_user (s.client_at p).user (s.channel_at c) ≡ true
        → has_room (s.queue_at p) ≡ false
        → Never (leave_member p c (s.client_at p).user m s)
    unfolding leave_member
    left-Never c s member full =
        rw (removed c (s.client_at p).user s member) (leave_as-Never c _ _ full)

    leave_channel-Never :
        (c : ℕ) (s : Store) → has_room (s.queue_at p) ≡ false → Never (leave_channel p c m s)
    unfolding leave_channel
    leave_channel-Never c s full =
        elim (Bool-cases (has_user (s.client_at p).user (s.channel_at c))) [
          | inl member ↦ rw member (left-Never c s member full)
          | inr outsider ↦ rw outsider (error-Never p _ _ _ s full)
        ]

    pub handle_leave_channel-Never :
        (s : Store)
        → lookup s.clients m.client_id ≡ some p
        → has_room (s.queue_at p) ≡ false
        → Never (handle_leave_channel m (with_mu free s))
    unfolding handle_leave_channel
    handle_leave_channel-Never s known full =
        rw known (elim (Option-cases (lookup s.rooms m.channel)) [
          | inl absent ↦ rw absent (error-Never p _ _ _ (with_mu free s) full)
          | inr (c, room) ↦ rw room (leave_channel-Never c (with_mu free s) full)
        ])

    refuse_login-Never :
        (e : UserError) (s : Store) → has_room (s.queue_at p) ≡ false → Never (refuse_login p m e s)
    unfolding refuse_login
    refuse_login-Never user_not_found s full = error-Never p _ _ _ s full
    refuse_login-Never invalid_password s full = error-Never p _ _ _ s full
    refuse_login-Never _ s full = error-Never p _ _ _ s full

    accept_login-Never :
        (w : Text) (profile : Profile) (s : Store)
        → has_room (s.queue_at p) ≡ false
        → Never (accept_login p m w profile s)
    unfolding accept_login
    accept_login-Never w profile s full =
        if-Never (s.client_at p).authenticated _ _ s (error-Never p _ _ _ s full) (
          later-Never p (set_client p (authenticate profile.username) s) _ _ full
            (add_client_to_user-Ends (StaysFull-Allows p) (users-Stay p)
              (λ f t. record { full = λ h. h }) w p profile _)
            (λ u t full'. response-Never p _ _ t full'))

    module _ (repo : Repository) (bcrypt : Bcrypt) (db : repo.Db) where
      login_result-Never :
          (w : Text) (r : Result Profile) (s : Store)
          → has_room (s.queue_at p) ≡ false
          → Never (login_result p m w r s)
      unfolding login_result
      login_result-Never w (err e) s full = refuse_login-Never e s full
      login_result-Never w (ok profile) s full = accept_login-Never w profile s full

      login_parsed-Never :
          (r : Parsed) (s : Store)
          → has_room (s.queue_at p) ≡ false
          → Never (login_parsed repo bcrypt db p m r s)
      unfolding login_parsed
      login_parsed-Never out_of_range s full = record { at = tt }
      login_parsed-Never not_ok s full = error-Never p _ _ _ s full
      login_parsed-Never (credentials w password) s full = login_result-Never w _ s full

      pub handle_login-Never :
          (s : Store)
          → lookup s.clients m.client_id ≡ some p
          → has_room (s.queue_at p) ≡ false
          → Never (handle_login repo bcrypt db m (with_mu free s))
      unfolding handle_login login_client
      handle_login-Never s known full = rw known (
          first-Never _ _ (
            if-Never (text_beq m.request.token []) _ _ _ (error-Never p _ _ _ _ full)
              (login_parsed-Never (parse_basic_auth m.request.token) _ full)))
