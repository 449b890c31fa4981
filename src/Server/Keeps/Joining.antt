-- ===== src/Server/Keeps/Joining.antt =====
-- handleJoinChannel.
use room_chat.Prelude.{
  ℕ, ◌≡◌, ◌∙◌, refl, Bool, true, false, some, none, Text, text_eq, nat_eq, text_beq, text_beq_iff,
  inl, inr, Bool-cases, Option-cases, ==-self, arith, ◌||◌, ◌&&◌,
}
use room_chat.Prelude.Sets.{contains, insert, contains-insert, pos_of_contains}
use room_chat.Prelude.Maps.{lookup, lookup-insert}
use room_chat.Protocol.{Message, conflict}
use room_chat.Connection.{has_room}
use room_chat.User.{username, add_channel}
use room_chat.Channel.{add_user}
use room_chat.Store.{Store, free, writing, done, set_channel}
use room_chat.Rooms.{
  get_or_create, allocate_channel, registry_add_user, channel_add_user, user_already_exists,
  send_welcome_message,
}
use room_chat.Server.Replies.{already_in_channel, welcome_in_channel}
use room_chat.Server.Membership.{refuse_join, join_into, join_as, handle_join_channel}
use room_chat.Server.Invariant.{Conns, Rooms, IsValid, session, is_member}
use room_chat.Server.Steps.Frame.{Conns-frame, SameConnections-update}
use room_chat.Server.Steps.Enroll.{link, enroll-Rooms, is_member-enroll}
use room_chat.Server.Steps.Registry.{allocated, allocated-Rooms, is_member-allocated}
use room_chat.Server.Steps.Sends.{send_welcome_message-Queues}
use room_chat.Server.Steps.Valid.{
  Returns, Returns-IsValid, with_mu, HasRoom, IsSound, IsSound-IsValid, IsSound-AfterQueues,
  respond-Returns, refuse-Returns, PopulatedBut, Populated-filled,
}

module _ (u c : ℕ) (w n : Text) (s : Store) (conns : Conns s) (rooms : Rooms (session s) s)
    (populated : PopulatedBut n s) (found : lookup s.sessions w ≡ some u)
    (room : lookup s.rooms n ≡ some c) where
  enrolled-IsSound :
      IsSound (link u c (insert w (s.channel_at c).users) (insert n (s.user_at u).channels) s)
  enrolled-IsSound = record {
    conns =
        Conns-frame _ _ s.next_channel s.rooms s.queue_at s.mu
          (SameConnections-update s.user_at u (insert n (s.user_at u).channels)) (λ p. refl) conns;
    rooms = enroll-Rooms (session s) s rooms u c w n found room;
    populated =
        Populated-filled n c
          (link u c (insert w (s.channel_at c).users) (insert n (s.user_at u).channels) s)
          (λ n' c' e other. ground (
            arith,
            populated n' c',
            rooms.room_named n' c,
            rooms.room_named n c,
            text_beq_iff n n',
          ))
          room
          (rw (==-self c) (
            pos_of_contains _ w
              (ground (arith, contains-insert w w (s.channel_at c).users, text_beq_iff w w))));
  }

add_user_again :
    (n w : Text) (c : ℕ) (s : Store)
    → lookup s.rooms n ≡ some c
    → contains (s.channel_at c).users w ≡ true
    → registry_add_user n w s ≡ done (some user_already_exists) s
unfolding registry_add_user channel_add_user add_user
add_user_again n w c s room already = ground arith

add_user_first :
    (n w : Text) (c : ℕ) (s : Store)
    → lookup s.rooms n ≡ some c
    → contains (s.channel_at c).users w ≡ false
    → registry_add_user n w s
      ≡ done none
          (set_channel c (record (s.channel_at c) { users = insert w (s.channel_at c).users }) s)
unfolding registry_add_user channel_add_user add_user
add_user_first n w c s room new = ground arith

-- What joining leaves: a valid store, and the members as before but for `w` in `n`.
abbrev pub Enters : Text → Text → (Text → Text → Bool) → Store → Type 0
Enters n w before t =
    IsValid t
    × ((n' w' : Text) → is_member t n' w' ≡ (text_beq n n' && text_beq w w' || before n' w'))

still_member :
    (n w : Text) (c : ℕ) (s : Store) (before : Text → Text → Bool)
    → ((n' w' : Text) → is_member s n' w' ≡ before n' w')
    → lookup s.rooms n ≡ some c
    → contains (s.channel_at c).users w ≡ true
    → (n' w' : Text) → is_member s n' w' ≡ (text_beq n n' && text_beq w w' || before n' w')
still_member n w c s before view room already n' w' =
    ground (arith, view n' w', text_beq_iff n n', text_beq_iff w w')

module _ (p : ℕ) (m : Message) (before : Text → Text → Bool) where
  open m use {channel as n, user as w}

  join_into-Returns :
      (u c : ℕ) (s : Store)
      → Conns s
      → Rooms (session s) s
      → PopulatedBut n s
      → lookup s.sessions w ≡ some u
      → lookup s.rooms n ≡ some c
      → (s.queue_at p).closed ≡ false
      → has_room (s.queue_at p) ≡ true
      → ((n' w' : Text) → is_member s n' w' ≡ before n' w')
      → Returns (join_into u p c m (with_mu writing s)) (Enters n w before)
  unfolding join_into refuse_join add_channel
  join_into-Returns u c s conns rooms populated found room opened space view =
      rw (conns.session_named w u found) elim (Bool-cases (contains (s.channel_at c).users w)) [
        | inl already ↦ rw (add_user_again n w c (with_mu writing s) room already) (
            refuse-Returns p already_in_channel m.request_id conflict (Enters n w before) s
              (λ q same. (
                IsSound-AfterQueues
                    (record {
                      conns = conns;
                      rooms = rooms;
                      populated =
                          Populated-filled n c s populated room
                            (pos_of_contains (s.channel_at c).users w already);
                    })
                    q same,
                still_member n w c s before view room already,
              ))
              opened space)
        | inr new ↦ rw (add_user_first n w c (with_mu writing s) room new) (
            respond-Returns p (welcome_in_channel n) m.request_id
              (send_welcome_message c (username (s.user_at u))) (Enters n w before)
              (λ t o. send_welcome_message-Queues c t o (username (s.user_at u)))
              (link u c (insert w (s.channel_at c).users) (insert n (s.user_at u).channels) s)
              (enrolled-IsSound u c w n s conns rooms populated found room).conns
              (λ q same. (
                IsSound-AfterQueues (enrolled-IsSound u c w n s conns rooms populated found room) q
                    same,
                λ n' w'.
                    is_member-enroll (session s) s rooms u c w n (insert n (s.user_at u).channels)
                      room n' w'
                    ∙ rw (view n' w'),
              ))
              opened space)
      ]

  -- `GetOrCreate` finds the channel, or adds an empty one.
  join_as-Returns :
      (u : ℕ) (s : Store)
      → IsSound s
      → lookup s.sessions w ≡ some u
      → (s.queue_at p).closed ≡ false
      → has_room (s.queue_at p) ≡ true
      → ((n' w' : Text) → is_member s n' w' ≡ before n' w')
      → Returns (join_as u p m (with_mu writing s)) (Enters n w before)
  unfolding join_as get_or_create allocate_channel
  join_as-Returns u s h found opened space view = elim (Option-cases (lookup s.rooms n)) [
    | inl e ↦ rw e (
        join_into-Returns u s.next_channel (allocated n s)
          (Conns-frame s.user_at _ _ _ s.queue_at s.mu (λ v. (refl, refl)) (λ r. refl) h.conns)
          (allocated-Rooms (session s) s h.rooms n e)
          (λ n' c e' other. ground (
            arith,
            h.populated n' c,
            h.rooms.room_old n' c,
            lookup-insert n n' s.next_channel s.rooms,
          ))
          found (lookup-insert n n s.next_channel s.rooms ∙ rw (==-self n)) opened space
          (λ n' w'. is_member-allocated (session s) s h.rooms n e n' w' ∙ view n' w'))
    | inr (c, e) ↦ rw e (
        join_into-Returns u c s h.conns h.rooms (λ n' c' e' other. h.populated n' c' e') found e
          opened space view)
  ]

-- A join request for a user who is online, from a registered client whose queue has room: it is
-- handled to its end, the store stays valid, and the members of every channel are as before, but
-- that the user is now a member of the channel, which is made where it does not exist.
pub handle_join_channel-Enters :
    (m : Message) (s : Store) (u p : ℕ)
    → IsSound s
    → HasRoom s m.client_id
    → lookup s.sessions m.user ≡ some u
    → lookup s.clients m.client_id ≡ some p
    → Returns (handle_join_channel m (with_mu free s)) (Enters m.channel m.user (is_member s))
unfolding handle_join_channel
handle_join_channel-Enters m s u p h room found e = rw found (
    rw e (
      join_as-Returns p m (is_member s) u s h found (h.conns.open_queue m.client_id p e) (room p e)
        (λ n' w'. refl)))

-- Joining keeps the invariant.
pub handle_join_channel-IsValid :
    (m : Message) (s : Store)
    → IsSound s
    → HasRoom s m.client_id
    → Returns (handle_join_channel m (with_mu free s)) IsValid
unfolding handle_join_channel
handle_join_channel-IsValid m s h room = elim (Option-cases (lookup s.sessions m.user)) [
  | inl none_found ↦ rw none_found (IsSound-IsValid h)
  | inr (u, found) ↦ elim (Option-cases (lookup s.clients m.client_id)) [
    | inl none_found ↦ rw (found, none_found) (IsSound-IsValid h)
    | inr (p, e) ↦ Returns-IsValid _ _ (handle_join_channel-Enters m s u p h room found e)
  ]
]
