-- ===== src/Server/Order.antt =====
-- Go visits the members of a channel and the connections of a user in an arbitrary order. Here: no
-- queue can tell which.
use room_chat.Prelude.{
  ℕ, ◌≡◌, ◌∙◌, sym, fun_ext, List, Text, some, nat_eq, text_eq, ap, refl, Option-cases, inl, inr,
}
use room_chat.Prelude.Sets.{contains, Distinct}
use room_chat.Prelude.Maps.{lookup}
use room_chat.Protocol.{Message}
use room_chat.Connection.{Queue}
use room_chat.Channel.{Channel, active_users_count}
use room_chat.Store.{Store, done}
use room_chat.Rooms.{channel_send}
use room_chat.Sending.{offer_all, offer_all_lem, recipients, send_to_members_lem}
use room_chat.Server.Invariant.{is_attached, is_member, members_of}
use room_chat.Server.Steps.Frame.{Conns-frame}
use room_chat.Server.Recipients.{contains-recipients, recipients-Distinct}
use room_chat.Server.Steps.Sends.{Conns-SessionsOpen}
use room_chat.Server.Steps.Valid.{IsSound}

-- The same connections, in any order.
offer_all-order :
    (ps rs : List ℕ) (m : Message) (q : ℕ → Queue)
    → Distinct ps
    → Distinct rs
    → ((p : ℕ) → contains ps p ≡ contains rs p)
    → offer_all ps m q ≡ offer_all rs m q
offer_all-order ps rs m q dp dr same =
    fun_ext λ p. offer_all_lem ps m q p dp ∙ rw (same p) (sym (offer_all_lem rs m q p dr))

-- The same channels, each with its members in any order.
pub record Reorders (f g : ℕ → Channel) (c : ℕ) : Type 0 where
  pub name : (g c).name ≡ (f c).name
  pub members : (w : Text) → contains (g c).users w ≡ contains (f c).users w
  pub distinct : Distinct (f c).users → Distinct (g c).users
  pub count : active_users_count (g c) ≡ active_users_count (f c)

Reorders-is_member :
    (s : Store) (g : ℕ → Channel)
    → ((c : ℕ) → Reorders s.channel_at g c)
    → (n w : Text) → is_member (record s { channel_at = g }) n w ≡ is_member s n w
Reorders-is_member s g same n w = elim (Option-cases (lookup s.rooms n)) [
  | inl absent ↦ rw (absent, members_of)
  | inr (c, room) ↦ rw (room, members_of) ((same c).members w)
]

-- Soundness does not depend on the order of the members.
pub Reorders-IsSound :
    (s : Store) (g : ℕ → Channel)
    → ((c : ℕ) → Reorders s.channel_at g c)
    → IsSound s
    → IsSound (record s { channel_at = g })
Reorders-IsSound s g same h = record {
  conns =
      Conns-frame s.user_at g s.next_channel s.rooms s.queue_at s.mu (λ v. (refl, refl)) (λ p. refl)
        h.conns;
  rooms = record {
    dir_named = h.rooms.dir_named;
    dir_old = h.rooms.dir_old;
    channels_distinct = h.rooms.channels_distinct;
    room_named = λ n c e. (same c).name ∙ h.rooms.room_named n c e;
    room_old = h.rooms.room_old;
    members_distinct = λ n c e. (same c).distinct (h.rooms.members_distinct n c e);
    synced = λ n w. Reorders-is_member s g same n w ∙ h.rooms.synced n w;
  };
  populated = λ n c e. rw (same c).count (h.populated n c e);
}

-- The two stores have the same clients and queues, the same connections of each user, and the same
-- members of the channel `c`, whatever the orders in which they are visited.
pub record SameUpToOrder (c : ℕ) (s t : Store) : Type 0 where
  pub clients : t.client_at ≡ s.client_at
  pub queues : t.queue_at ≡ s.queue_at
  pub attached : (w : Text) (p : ℕ) → is_attached t w p ≡ is_attached s w p
  pub members : (w : Text) → contains (t.channel_at c).users w ≡ contains (s.channel_at c).users w

module _ (n : Text) (c : ℕ) (m : Message) (s t : Store) (h : IsSound s) (k : IsSound t)
    (room : lookup s.rooms n ≡ some c) (room' : lookup t.rooms n ≡ some c)
    (same : SameUpToOrder c s t) where
  same_recipients :
      (p : ℕ)
      → contains (recipients t.sessions t.user_at (t.channel_at c).users) p
        ≡ contains (recipients s.sessions s.user_at (s.channel_at c).users) p
  same_recipients p =
      contains-recipients t k.conns (t.channel_at c).users p
      ∙ rw (same.clients, same.members (s.client_at p).user, same.attached (s.client_at p).user p)
          (sym (contains-recipients s h.conns (s.channel_at c).users p))

  -- In two sound stores that differ in the orders of the members and of the connections only, a
  -- push to a channel is sent to its end, and leaves the same queues.
  pub channel_send-order :
      (q : ℕ → Queue) × (channel_send c m s ≡ done tt (record s { queue_at = q }))
      × (channel_send c m t ≡ done tt (record t { queue_at = q }))
  unfolding channel_send
  channel_send-order = (
    offer_all (recipients s.sessions s.user_at (s.channel_at c).users) m s.queue_at,
    send_to_members_lem (s.channel_at c).users m s (Conns-SessionsOpen h.conns),
    send_to_members_lem (t.channel_at c).users m t (Conns-SessionsOpen k.conns)
        ∙ ap (λ q. done tt (record t { queue_at = q }))
            (rw same.queues (
              offer_all-order _ _ m s.queue_at
                (recipients-Distinct t k.conns (t.channel_at c).users
                  (k.rooms.members_distinct n c room'))
                (recipients-Distinct s h.conns (s.channel_at c).users
                  (h.rooms.members_distinct n c room))
                same_recipients)),
  )
