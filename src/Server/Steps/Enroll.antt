-- ===== src/Server/Steps/Enroll.antt =====
-- A user and a channel find each other, or part: the two writes of joining and of leaving.
use room_chat.Prelude.{
  ℕ, ◌≡◌, Option, some, List, Text, nat_eq, text_eq, text_beq, text_beq_iff, arith, ◌&&◌, ◌||◌, not,
}
use room_chat.Prelude.Sets.{
  insert, erase, contains-insert, contains-erase, insert-Distinct, erase-Distinct,
}
use room_chat.Prelude.Maps.{lookup, update}
use room_chat.Store.{Store}
use room_chat.Server.Invariant.{is_member, Rooms}

-- Channel `c` gets the members `ws`, and user `u` the channels `ns`.
abbrev pub link : ℕ → ℕ → List Text → List Text → Store → Store
link u c ws ns s = record s {
  user_at = update s.user_at u (record (s.user_at u) { channels = ns });
  channel_at = update s.channel_at c (record (s.channel_at c) { users = ws });
}

module _ (dir : Text → Option ℕ) (s : Store) (h : Rooms dir s) (u c : ℕ) (w n : Text)
    (found : dir w ≡ some u) (room : lookup s.rooms n ≡ some c) where
  pub enroll-Rooms :
      Rooms dir (link u c (insert w (s.channel_at c).users) (insert n (s.user_at u).channels) s)
  enroll-Rooms = record {
    dir_named = λ w' u' e. ground (arith, h.dir_named w' u');
    dir_old = h.dir_old;
    channels_distinct = λ w' u' e.
        ground (arith, h.channels_distinct w' u', insert-Distinct n (s.user_at u').channels);
    room_named = λ n' c' e. ground (arith, h.room_named n' c');
    room_old = h.room_old;
    members_distinct = λ n' c' e.
        ground (arith, h.members_distinct n' c', insert-Distinct w (s.channel_at c').users);
    synced = λ n' w'. ground (
      arith,
      h.synced n' w',
      h.synced n w',
      h.synced n' w,
      contains-insert w w' (s.channel_at c).users,
      contains-insert n n' (s.user_at u).channels,
      text_beq_iff w w',
      text_beq_iff n n',
      h.room_named n' c,
      h.room_named n c,
      h.dir_named w u,
      h.dir_named w' u,
    );
  }

  pub withdraw-Rooms :
      Rooms dir (link u c (erase w (s.channel_at c).users) (erase n (s.user_at u).channels) s)
  withdraw-Rooms = record {
    dir_named = λ w' u' e. ground (arith, h.dir_named w' u');
    dir_old = h.dir_old;
    channels_distinct = λ w' u' e.
        ground (arith, h.channels_distinct w' u', erase-Distinct n (s.user_at u').channels);
    room_named = λ n' c' e. ground (arith, h.room_named n' c');
    room_old = h.room_old;
    members_distinct = λ n' c' e.
        ground (arith, h.members_distinct n' c', erase-Distinct w (s.channel_at c').users);
    synced = λ n' w'. ground (
      arith,
      h.synced n' w',
      h.synced n w',
      h.synced n' w,
      contains-erase w w' (s.channel_at c).users,
      contains-erase n n' (s.user_at u).channels,
      text_beq_iff w w',
      text_beq_iff n n',
      h.room_named n' c,
      h.room_named n c,
      h.dir_named w u,
      h.dir_named w' u,
    );
  }

-- The view of the memberships that both writes change at one place only.
module _ (dir : Text → Option ℕ) (s : Store) (h : Rooms dir s) (u c : ℕ) (w n : Text)
    (ns : List Text) (room : lookup s.rooms n ≡ some c) where
  pub is_member-enroll :
      (n' w' : Text)
      → is_member (link u c (insert w (s.channel_at c).users) ns s) n' w'
        ≡ (text_beq n n' && text_beq w w' || is_member s n' w')
  is_member-enroll n' w' = ground (
    arith,
    contains-insert w w' (s.channel_at c).users,
    text_beq_iff n n',
    h.room_named n' c,
    h.room_named n c,
  )

  pub is_member-withdraw :
      (n' w' : Text)
      → is_member (link u c (erase w (s.channel_at c).users) ns s) n' w'
        ≡ (not (text_beq n n' && text_beq w w') && is_member s n' w')
  is_member-withdraw n' w' = ground (
    arith,
    contains-erase w w' (s.channel_at c).users,
    text_beq_iff n n',
    h.room_named n' c,
    h.room_named n c,
  )
