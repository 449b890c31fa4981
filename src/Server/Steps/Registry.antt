-- ===== src/Server/Steps/Registry.antt =====
-- The registry of channels gets a channel, or loses an empty one.
use room_chat.Prelude.{
  ℕ, suc, ◌≡◌, Option, none, some, [], Text, nat_eq, text_eq, text_beq_iff, arith,
}
use room_chat.Prelude.Sets.{contains}
use room_chat.Prelude.Maps
use room_chat.Prelude.Maps.{lookup, update, lookup-insert, lookup-delete}
use room_chat.Channel.{new_channel}
use room_chat.Store.{Store}
use room_chat.Rooms.{registry_delete}
use room_chat.Server.Invariant.{is_member, Rooms}

-- `allocate_channel` leaves this store.
abbrev pub allocated : Text → Store → Store
allocated n s = record s {
  channel_at = update s.channel_at s.next_channel (new_channel n);
  next_channel = suc s.next_channel;
  rooms = Maps.insert n s.next_channel s.rooms;
}

module _ (dir : Text → Option ℕ) (s : Store) (h : Rooms dir s) (n : Text) where
  pub allocated-Rooms : lookup s.rooms n ≡ none → Rooms dir (allocated n s)
  unfolding new_channel contains
  allocated-Rooms fresh = record {
    dir_named = h.dir_named;
    dir_old = h.dir_old;
    channels_distinct = h.channels_distinct;
    room_named = λ n' c' e. ground (
      arith,
      h.room_named n' c',
      h.room_old n' c',
      lookup-insert n n' s.next_channel s.rooms,
      text_beq_iff n n',
    );
    room_old =
        λ n' c' e. ground (arith, h.room_old n' c', lookup-insert n n' s.next_channel s.rooms);
    members_distinct = λ n' c' e. ground (
      arith,
      h.members_distinct n' c',
      h.room_old n' c',
      lookup-insert n n' s.next_channel s.rooms,
    );
    synced = λ n' w'. ground (
      arith,
      h.synced n' w',
      lookup-insert n n' s.next_channel s.rooms,
      text_beq_iff n n',
      h.room_old n' s.next_channel,
    );
  }

  pub deleted-Rooms :
      (c : ℕ)
      → lookup s.rooms n ≡ some c
      → (s.channel_at c).users ≡ []
      → Rooms dir (registry_delete n s)
  unfolding registry_delete contains
  deleted-Rooms c room empty = record {
    dir_named = h.dir_named;
    dir_old = h.dir_old;
    channels_distinct = h.channels_distinct;
    room_named = λ n' c' e. ground (arith, h.room_named n' c', lookup-delete n n' s.rooms);
    room_old = λ n' c' e. ground (arith, h.room_old n' c', lookup-delete n n' s.rooms);
    members_distinct =
        λ n' c' e. ground (arith, h.members_distinct n' c', lookup-delete n n' s.rooms);
    synced = λ n' w'. ground (arith, h.synced n' w', lookup-delete n n' s.rooms, text_beq_iff n n');
  }

-- An empty channel has no members, before it is added and after it is gone.
pub is_member-allocated :
    (dir : Text → Option ℕ) (s : Store) (h : Rooms dir s) (n : Text)
    → lookup s.rooms n ≡ none
    → (n' w' : Text) → is_member (allocated n s) n' w' ≡ is_member s n' w'
unfolding new_channel contains
is_member-allocated dir s h n fresh n' w' = ground (
  arith,
  lookup-insert n n' s.next_channel s.rooms,
  text_beq_iff n n',
  h.room_old n' s.next_channel,
)

pub is_member-deleted :
    (n : Text) (s : Store) (c : ℕ)
    → lookup s.rooms n ≡ some c
    → (s.channel_at c).users ≡ []
    → (n' w' : Text) → is_member (registry_delete n s) n' w' ≡ is_member s n' w'
unfolding registry_delete contains
is_member-deleted n s c room empty n' w' =
    ground (arith, lookup-delete n n' s.rooms, text_beq_iff n n')
