-- ===== src/Server/Answers/Requests.antt =====
-- The handlers of a join, of a leave and of a message answer the request once.
use room_chat.Prelude.{
  ℕ, ◌≡◌, refl, true, Option, none, some, Text, text_eq, nat_eq, inl, inr, Bool-cases, Option-cases,
}
use room_chat.Prelude.Maps.{lookup}
use room_chat.Protocol.{Message}
use room_chat.User.{add_channel, remove_channel}
use room_chat.Channel.{has_user}
use room_chat.Elastic.{SearchClient, index_message}
use room_chat.Store.{Store, free, writing, Exec, set_user}
use room_chat.Rooms.{ChannelError, user_already_exists}
use room_chat.Server.Membership.{
  refuse_join, join_into, join_as, handle_join_channel, leave_as, leave_member, leave_channel,
  handle_leave_channel,
}
use room_chat.Server.Messages.{send_in_channel, handle_send_message}
use room_chat.Server.Steps.Valid.{with_mu}
use room_chat.Server.Effects.{Ends}
use room_chat.Server.Stalls.Full.{removed}
use room_chat.Server.Answers.{
  OneAnswer, from-OneAnswer, before-OneAnswer, after-OneAnswer, then-NoAnswer, send_error-OneAnswer,
  send_response-OneAnswer, send_welcome_message-NoAnswer, send_leave_message-NoAnswer,
  channel_send_message-NoAnswer,
}
use room_chat.Server.Answers.Quiet.{
  unlock-NoAnswer, registry_add_user-NoAnswer, get_or_create-NoAnswer, cleanup-NoAnswer,
}

module _ (p : ℕ) (m : Message) where
  -- Sending a message.
  send_in_channel-OneAnswer :
      (search : SearchClient) (c : ℕ) (s : Store)
      → Ends (send_in_channel search p c m s) (OneAnswer p m.request_id s)
  unfolding send_in_channel
  send_in_channel-OneAnswer search c s =
      elim (Bool-cases (has_user (s.client_at p).user (s.channel_at c))) [
        | inr outsider ↦ rw outsider (send_error-OneAnswer p _ _ _ s)
        | inl member ↦ rw member (elim (Option-cases (index_message search m)) [
          | inr (e, failed) ↦ rw failed (send_error-OneAnswer p _ _ _ s)
          | inl stored ↦ rw stored (
              after-OneAnswer p m.request_id s _ _ (send_response-OneAnswer p _ _ s)
                (λ _ t. channel_send_message-NoAnswer c m t))
        ])
      ]

  pub handle_send_message-OneAnswer :
      (search : SearchClient) (s : Store)
      → lookup s.clients m.client_id ≡ some p
      → Ends
          (handle_send_message search m (with_mu free s))
          (OneAnswer p m.request_id (with_mu free s))
  unfolding handle_send_message
  handle_send_message-OneAnswer search s known =
      rw known (elim (Option-cases (lookup s.rooms m.channel)) [
        | inl absent ↦ rw absent (send_error-OneAnswer p _ _ _ (with_mu free s))
        | inr (c, room) ↦ rw room (send_in_channel-OneAnswer search c (with_mu free s))
      ])

  -- Joining a channel.
  refuse_join-OneAnswer :
      (e : ChannelError) (s : Store) → Ends (refuse_join p m e s) (OneAnswer p m.request_id s)
  unfolding refuse_join
  refuse_join-OneAnswer user_already_exists s = send_error-OneAnswer p _ _ _ s
  refuse_join-OneAnswer _ s = send_error-OneAnswer p _ _ _ s

  option-OneAnswer {κ} :
      {X : Type κ} (o : Option X) (a : Exec (Unit {0})) (f : X → Exec (Unit {0})) (s : Store)
      → Ends (a s) (OneAnswer p m.request_id s)
      → ((x : X) → Ends (f x s) (OneAnswer p m.request_id s))
      → Ends
          ((elim o as (λ _. Exec (Unit {0})) [ none ↦ a | some x ↦ f x ]) s)
          (OneAnswer p m.request_id s)
  option-OneAnswer none a f s absent present = absent
  option-OneAnswer (some x) a f s absent present = present x

  join_into-OneAnswer :
      (u c : ℕ) (s : Store) → Ends (join_into u p c m s) (OneAnswer p m.request_id s)
  unfolding join_into
  join_into-OneAnswer u c s =
      before-OneAnswer p m.request_id s _ _ (registry_add_user-NoAnswer m.channel _ s) λ failed t _.
        option-OneAnswer failed _ _ t
          (from-OneAnswer p m.request_id t (set_user u (add_channel m.channel) t) _
            (record { same = λ q r. refl })
            (before-OneAnswer p m.request_id _ _ _ (unlock-NoAnswer _) (λ _ x _.
              after-OneAnswer p m.request_id x _ _ (send_response-OneAnswer p _ _ x)
                (λ _ y. send_welcome_message-NoAnswer c _ y))))
          (λ e.
            before-OneAnswer p m.request_id t _ _ (unlock-NoAnswer t)
              (λ _ v _. refuse_join-OneAnswer e v))

  pub handle_join_channel-OneAnswer :
      (s : Store) (u : ℕ)
      → lookup s.sessions m.user ≡ some u
      → lookup s.clients m.client_id ≡ some p
      → Ends (handle_join_channel m (with_mu free s)) (OneAnswer p m.request_id (with_mu free s))
  unfolding handle_join_channel join_as
  handle_join_channel-OneAnswer s u online known =
      rw (online, known)
        (from-OneAnswer p m.request_id (with_mu free s) (with_mu writing s) _
          (record { same = λ q r. refl })
          (before-OneAnswer p m.request_id _ _ _ (get_or_create-NoAnswer m.channel _)
            (λ c t _. join_into-OneAnswer u c t)))

  -- Leaving a channel.
  leave_as-OneAnswer :
      (c : ℕ) (w : Text) (s : Store) → Ends (leave_as p c w m s) (OneAnswer p m.request_id s)
  unfolding leave_as
  leave_as-OneAnswer c w s =
      option-OneAnswer (lookup s.sessions w) _ _ s (record { at = tt })
        λ u.
          from-OneAnswer p m.request_id s (set_user u (remove_channel m.channel) s) _
            (record { same = λ q r. refl })
            (after-OneAnswer p m.request_id _ _ _ (send_response-OneAnswer p _ _ _) λ _ t.
              then-NoAnswer t _ _ (send_leave_message-NoAnswer c _ t)
                (λ _ v. cleanup-NoAnswer m.channel c v))

  left-OneAnswer :
      (c : ℕ) (s : Store)
      → has_user (s.client_at p).user (s.channel_at c) ≡ true
      → Ends (leave_member p c (s.client_at p).user m s) (OneAnswer p m.request_id s)
  unfolding leave_member
  left-OneAnswer c s member = rw (removed c (s.client_at p).user s member) (
      from-OneAnswer p m.request_id s _ _ (record { same = λ q r. refl })
        (leave_as-OneAnswer c (s.client_at p).user _))

  leave_channel-OneAnswer :
      (c : ℕ) (s : Store) → Ends (leave_channel p c m s) (OneAnswer p m.request_id s)
  unfolding leave_channel
  leave_channel-OneAnswer c s = elim (Bool-cases (has_user (s.client_at p).user (s.channel_at c))) [
    | inl member ↦ rw member (left-OneAnswer c s member)
    | inr outsider ↦ rw outsider (send_error-OneAnswer p _ _ _ s)
  ]

  pub handle_leave_channel-OneAnswer :
      (s : Store)
      → lookup s.clients m.client_id ≡ some p
      → Ends (handle_leave_channel m (with_mu free s)) (OneAnswer p m.request_id (with_mu free s))
  unfolding handle_leave_channel
  handle_leave_channel-OneAnswer s known =
      rw known (elim (Option-cases (lookup s.rooms m.channel)) [
        | inl absent ↦ rw absent (send_error-OneAnswer p _ _ _ (with_mu free s))
        | inr (c, room) ↦ rw room (leave_channel-OneAnswer c (with_mu free s))
      ])
