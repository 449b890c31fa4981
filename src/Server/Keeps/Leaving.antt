-- ===== src/Server/Keeps/Leaving.antt =====
-- handleLeaveChannel.
use room_chat.Prelude.{
  ℕ, ◌≡◌, ◌∙◌, refl, sym, true, false, Option, some, none, Text, text_eq, nat_eq, inl, inr,
  Bool-cases, Option-cases, arith, not, ◌&&◌, text_beq, text_beq_iff,
}
use room_chat.Prelude.Sets.{contains}
use room_chat.Prelude.Maps.{lookup}
use room_chat.Protocol.{Message, validation, forbidden}
use room_chat.Connection.{has_room}
use room_chat.User.{User, username, remove_channel}
use room_chat.Store.{Store, free}
use room_chat.Server.Replies.{not_a_member_of, no_such_channel, you_left}
use room_chat.Server.Membership.{leave_as, leave_member, leave_channel, handle_leave_channel}
use room_chat.Server.Invariant.{IsValid, session, channels_of, members_of, is_member}
use room_chat.Server.Steps.Depart.{
  departed, departed-Conns, departed-tidied, channel_remove_member, notify_tidy, is_member-departed,
}
use room_chat.Server.Steps.Valid.{
  Returns, Returns-IsValid, with_mu, HasRoom, IsSound, IsSound-IsValid, IsSound-AfterQueues,
  send_response-Queues, refuse-Returns, Queues-continue,
}

-- A name in the set of channels of a session belongs to somebody.
pub session_of_channel :
    (o : Option ℕ) (user_at : ℕ → User) (n : Text)
    → contains (channels_of o user_at) n ≡ true
    → (u : ℕ) × (o ≡ some u)
unfolding contains
session_of_channel none user_at n h = cc
session_of_channel (some u) user_at n h = (u, refl)

-- A member of a channel is online.
pub member_online :
    {s : Store} (w n : Text) (c : ℕ)
    → IsSound s
    → lookup s.rooms n ≡ some c
    → contains (s.channel_at c).users w ≡ true
    → (u : ℕ) × (lookup s.sessions w ≡ some u)
member_online {s} w n c h room member =
    session_of_channel (session s w) s.user_at n
      (sym (h.rooms.synced n w) ∙ rw (room, members_of) member)

-- What leaving leaves: a valid store, and the members as before but for `w` in `n`.
abbrev pub Exits : Text → Text → Store → Store → Type 0
Exits n w s t =
    IsValid t
    × ((n' w' : Text)
        → is_member t n' w' ≡ (not (text_beq n n' && text_beq w w') && is_member s n' w'))

-- Who is no member stays none.
not_member_of :
    (n w : Text) (c : ℕ) (s : Store)
    → lookup s.rooms n ≡ some c
    → contains (s.channel_at c).users w ≡ false
    → (n' w' : Text)
    → is_member s n' w' ≡ (not (text_beq n n' && text_beq w w') && is_member s n' w')
not_member_of n w c s room other n' w' = ground (arith, text_beq_iff n n', text_beq_iff w w')

module _ (p : ℕ) (m : Message) (s : Store) (h : IsSound s) (opened : (s.queue_at p).closed ≡ false)
    (space : has_room (s.queue_at p) ≡ true) where
  open m use {channel as n}

  leave_member-Returns :
      (c : ℕ) (w : Text)
      → lookup s.rooms n ≡ some c
      → contains (s.channel_at c).users w ≡ true
      → Returns (leave_member p c w m (with_mu free s)) (Exits n w s)
  unfolding leave_member leave_as remove_channel
  leave_member-Returns c w room member =
      let (u, found) = member_online w n c h room member in
      let s' = departed u c w n s.queue_at s in
      rw (channel_remove_member c w (with_mu free s) member) (
        rw found (
          Queues-continue s' _ _ (Exits n w s)
            (send_response-Queues p s' opened space (you_left n) m.request_id)
            λ q same.
              let (r, same', e) =
                notify_tidy u c w n (username (s'.user_at u)) q s
                  (departed-Conns (session s) s h u c w n q found room same) in
              rw e (
                IsSound-IsValid
                    (departed-tidied (session s) s h u c w n r found room (λ v. same' v ∙ same v)),
                is_member-departed (session s) s h.rooms u c w n r room,
              )))

  leave_channel-Returns :
      (c : ℕ)
      → lookup s.rooms n ≡ some c
      → Returns (leave_channel p c m (with_mu free s)) (Exits n (s.client_at p).user s)
  unfolding leave_channel
  leave_channel-Returns c room =
      elim (Bool-cases (contains (s.channel_at c).users (s.client_at p).user)) [
        | inl member ↦ rw member (leave_member-Returns c (s.client_at p).user room member)
        | inr other ↦ rw other (
            refuse-Returns p (not_a_member_of n) m.request_id forbidden
              (Exits n (s.client_at p).user s) s
              (λ q same.
                (IsSound-AfterQueues h q same, not_member_of n (s.client_at p).user c s room other))
              opened space)
      ]

-- A leave request of a registered client whose queue has room, whether its user is a member or not
-- and whether the channel exists or not: it is handled to its end, the store stays valid, with no
-- empty channel, and the members of every channel are as before, but that the user of the client is
-- no member of that channel.
pub handle_leave_channel-Exits :
    (m : Message) (s : Store) (p : ℕ)
    → IsSound s
    → HasRoom s m.client_id
    → lookup s.clients m.client_id ≡ some p
    → Returns (handle_leave_channel m (with_mu free s)) (Exits m.channel (s.client_at p).user s)
unfolding handle_leave_channel contains
handle_leave_channel-Exits m s p h room e = rw e (
    let opened = h.conns.open_queue m.client_id p e in
    elim (Option-cases (lookup s.rooms m.channel)) [
      | inl none_found ↦ rw none_found (
          refuse-Returns p (no_such_channel m.channel) m.request_id validation
            (Exits m.channel (s.client_at p).user s) s
            (λ q same. (
              IsSound-AfterQueues h q same,
              λ n' w'. ground (arith, none_found, text_beq_iff m.channel n'),
            ))
            opened (room p e))
      | inr (c, found) ↦ rw found (leave_channel-Returns p m s h opened (room p e) c found)
    ])

-- Leaving keeps the invariant.
pub handle_leave_channel-IsValid :
    (m : Message) (s : Store)
    → IsSound s
    → HasRoom s m.client_id
    → Returns (handle_leave_channel m (with_mu free s)) IsValid
unfolding handle_leave_channel
handle_leave_channel-IsValid m s h room = elim (Option-cases (lookup s.clients m.client_id)) [
  | inl none_found ↦ rw none_found (IsSound-IsValid h)
  | inr (p, e) ↦ Returns-IsValid _ _ (handle_leave_channel-Exits m s p h room e)
]
