-- ===== src/Server/Steps/Frame.antt =====
-- Writes that one half of the invariant does not look at.
use room_chat.Prelude.{
  ℕ, ◌≡◌, ◌∙◌, Option, Option-cases, inl, inr, List, Text, nat_eq, text_eq, arith,
}
use room_chat.Prelude.Sets.{contains}
use room_chat.Prelude.Maps.{lookup, update}
use room_chat.Connection.{Client, Queue}
use room_chat.Channel.{Channel}
use room_chat.User.{User}
use room_chat.Store.{Store, Lock}
use room_chat.Server.Invariant.{Conns, Rooms, connections_of}

-- Rooms are not about clients, queues, sessions and the lock.
pub Rooms-frame :
    {dir : Text → Option ℕ} {s : Store} (client_at : ℕ → Client) (queue_at : ℕ → Queue)
    (clients sessions : List (Text × ℕ)) (mu : Lock)
    → Rooms dir s
    → Rooms dir (record s {
      client_at = client_at;
      queue_at = queue_at;
      clients = clients;
      sessions = sessions;
      mu = mu;
    })
Rooms-frame client_at queue_at clients sessions mu h = record {
  dir_named = h.dir_named;
  dir_old = h.dir_old;
  channels_distinct = h.channels_distinct;
  room_named = h.room_named;
  room_old = h.room_old;
  members_distinct = h.members_distinct;
  synced = h.synced;
}

-- Which queues are closed is the same.
abbrev pub SameClosed : (ℕ → Queue) → (ℕ → Queue) → Type 0
SameClosed q r = (p : ℕ) → (q p).closed ≡ (r p).closed

-- The users are the same but for their channels.
abbrev pub SameConnections : (ℕ → User) → (ℕ → User) → Type 0
SameConnections f g =
    (u : ℕ) → ((f u).connections ≡ (g u).connections) × ((f u).profile ≡ (g u).profile)

pub SameConnections-update :
    (f : ℕ → User) (u : ℕ) (ns : List Text)
    → SameConnections (update f u (record (f u) { channels = ns })) f
SameConnections-update f u ns v = ground arith

-- Connections are not about channels, the channels of a user, the lock, and what is queued.
pub Conns-frame :
    {s : Store} (user_at : ℕ → User) (channel_at : ℕ → Channel) (next_channel : ℕ)
    (rooms : List (Text × ℕ)) (queue_at : ℕ → Queue) (mu : Lock)
    → SameConnections user_at s.user_at
    → SameClosed queue_at s.queue_at
    → Conns s
    → Conns (record s {
      user_at = user_at;
      channel_at = channel_at;
      next_channel = next_channel;
      rooms = rooms;
      queue_at = queue_at;
      mu = mu;
    })
Conns-frame {s} user_at channel_at next_channel rooms queue_at mu alike same h = record {
  client_named = h.client_named;
  open_queue = λ id p e. same p ∙ h.open_queue id p e;
  session_named = λ w v e. rw (alike v).1 (h.session_named w v e);
  session_old = h.session_old;
  online = λ w v e. rw (alike v).0 (h.online w v e);
  connections_distinct = λ w v e. rw (alike v).0 (h.connections_distinct w v e);
  attached = λ w p e. h.attached w p (attached_before w p ∙ e);
  logged_in = λ id p e. h.logged_in id p e ∙ attached_before (s.client_at p).user p;
}
  where
    attached_before :
        (w : Text) (p : ℕ)
        → contains (connections_of s.sessions s.user_at w) p
          ≡ contains (connections_of s.sessions user_at w) p
    attached_before w p = elim (Option-cases (lookup s.sessions w)) [
      | inl e ↦ rw (e, connections_of)
      | inr (u, e) ↦ rw (e, connections_of, (alike u).0)
    ]
