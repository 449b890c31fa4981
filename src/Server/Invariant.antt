-- ===== src/Server/Invariant.antt =====
-- What holds of the server's memory between two events: the maps, the objects behind their pointers
-- and the two sides of every membership agree, and the lock is free.
use room_chat.Prelude.{
  ℕ, ◌<◌, ◌≡◌, Bool, true, false, Option, none, some, List, [], Text, nat_eq, text_eq, ltb,
}
use room_chat.Prelude.Sets.{contains, Distinct}
use room_chat.Prelude.Maps.{lookup}
use room_chat.User.{User, username, has_connections}
use room_chat.Channel.{Channel, active_users_count}
use room_chat.Store.{Store, free}

-- The connections of a user who is online; the members of a channel; the channels of a user, whom
-- `dir` finds.
abbrev pub connections_of : List (Text × ℕ) → (ℕ → User) → Text → List ℕ
connections_of sessions user_at w = elim (lookup sessions w) [
  | none ↦ []
  | some u ↦ (user_at u).connections
]

abbrev pub members_of : List (Text × ℕ) → (ℕ → Channel) → Text → List Text
members_of rooms channel_at n = elim (lookup rooms n) [ none ↦ [] | some c ↦ (channel_at c).users ]

abbrev pub channels_of : Option ℕ → (ℕ → User) → List Text
channels_of none user_at = []
channels_of (some u) user_at = (user_at u).channels

abbrev pub is_attached : Store → Text → ℕ → Bool
is_attached s w p = contains (connections_of s.sessions s.user_at w) p

abbrev pub is_member : Store → Text → Text → Bool
is_member s n w = contains (members_of s.rooms s.channel_at n) w

-- Connections: a registered client has an open queue, and is logged in exactly if the session of
-- its user holds it; a session holds only registered clients of its user, and at least one.
pub record Conns (s : Store) : Type 0 where
  pub client_named :
      (id : Text) (p : ℕ) → lookup s.clients id ≡ some p → (s.client_at p).conn_id ≡ id
  pub open_queue :
      (id : Text) (p : ℕ) → lookup s.clients id ≡ some p → (s.queue_at p).closed ≡ false
  pub session_named : (w : Text) (u : ℕ) → lookup s.sessions w ≡ some u → username (s.user_at u) ≡ w
  pub session_old : (w : Text) (u : ℕ) → lookup s.sessions w ≡ some u → u < s.next_user
  pub online :
      (w : Text) (u : ℕ) → lookup s.sessions w ≡ some u → has_connections (s.user_at u) ≡ true
  pub connections_distinct :
      (w : Text) (u : ℕ) → lookup s.sessions w ≡ some u → Distinct (s.user_at u).connections
  pub attached :
      (w : Text) (p : ℕ)
      → is_attached s w p ≡ true
      → (lookup s.clients (s.client_at p).conn_id ≡ some p) × ((s.client_at p).user ≡ w)
  pub logged_in :
      (id : Text) (p : ℕ)
      → lookup s.clients id ≡ some p
      → (s.client_at p).authenticated ≡ is_attached s (s.client_at p).user p

-- Memberships, for the users that `dir` finds: a user is a member of a channel exactly if the
-- channel is among the user's.
pub record Rooms (dir : Text → Option ℕ) (s : Store) : Type 0 where
  pub dir_named : (w : Text) (u : ℕ) → dir w ≡ some u → username (s.user_at u) ≡ w
  pub dir_old : (w : Text) (u : ℕ) → dir w ≡ some u → u < s.next_user
  pub channels_distinct : (w : Text) (u : ℕ) → dir w ≡ some u → Distinct (s.user_at u).channels
  pub room_named : (n : Text) (c : ℕ) → lookup s.rooms n ≡ some c → (s.channel_at c).name ≡ n
  pub room_old : (n : Text) (c : ℕ) → lookup s.rooms n ≡ some c → c < s.next_channel
  pub members_distinct :
      (n : Text) (c : ℕ) → lookup s.rooms n ≡ some c → Distinct (s.channel_at c).users
  pub synced : (n w : Text) → is_member s n w ≡ contains (channels_of (dir w) s.user_at) n

-- No channel is empty.
abbrev pub Populated : Store → Type 0
Populated s =
    (n : Text) (c : ℕ)
    → lookup s.rooms n ≡ some c
    → ltb 0 (active_users_count (s.channel_at c)) ≡ true

abbrev pub session : Store → Text → Option ℕ
session s w = lookup s.sessions w

pub record IsValid (s : Store) : Type 0 where
  pub unlocked : s.mu ≡ free
  pub conns : Conns s
  pub rooms : Rooms (session s) s
  pub populated : Populated s
