-- ===== src/Server/Keeps/Departing.antt =====
-- removeUserFromAllChannels: the loop over the channels of a user who is no longer online.
use room_chat.Prelude.{
  ℕ, ◌≡◌, ◌∙◌, refl, sym, Bool, true, false, not, ◌&&◌, Option, some, none, Text, List, [], ◌∷◌,
  text_eq, nat_eq, text_beq, text_beq_iff, arith, if◌then◌else◌, Option-cases, inl, inr, ==-self,
}
use room_chat.Prelude.Sets.{contains, contains-erase, Distinct}
use room_chat.Prelude.Maps.{lookup}
use room_chat.Connection.{Queue}
use room_chat.Channel.{Channel}
use room_chat.User.{remove_channel}
use room_chat.Store.{Store, free, reading, done}
use room_chat.Server.Clients.{leave_one, leave_each}
use room_chat.Server.Invariant.{Rooms, members_of, channels_of, is_member, session}
use room_chat.Server.Steps.Frame.{SameClosed}
use room_chat.Server.Steps.Depart.{
  departed, tidied, departed-Conns, departed-tidied, channel_remove_member, notify_tidy,
  is_member-departed,
}
use room_chat.Server.Steps.Valid.{with_mu, IsSoundFor}

-- A member's channel exists, and has the member.
room_of_member :
    (rooms : List (Text × ℕ)) (channel_at : ℕ → Channel) (n w : Text)
    → contains (members_of rooms channel_at n) w ≡ true
    → (c : ℕ) × (lookup rooms n ≡ some c) × (contains (channel_at c).users w ≡ true)
unfolding contains
room_of_member rooms channel_at n w h = elim (Option-cases (lookup rooms n)) [
  | inl e ↦ absurd (ground arith)
  | inr (c, e) ↦ (c, e, ground arith)
]

-- One round, for a channel that the user has joined.
leave_one_lem :
    (dir : Text → Option ℕ) (u : ℕ) (w n : Text) (s : Store)
    → IsSoundFor dir s
    → dir w ≡ some u
    → contains (s.user_at u).channels n ≡ true
    → (c : ℕ) × (q : ℕ → Queue) × SameClosed q s.queue_at
      × (lookup s.rooms n ≡ some c)
      × (leave_one u w n (with_mu free s)
          ≡ done tt (with_mu free (tidied n c (departed u c w n q s))))
unfolding leave_one remove_channel
leave_one_lem dir u w n s h found joined =
    let (c, room, member) =
      room_of_member s.rooms s.channel_at n w
        (h.rooms.synced n w ∙ rw (found, channels_of) joined) in
    let (q, same, e) =
      notify_tidy u c w n w s.queue_at s
        (departed-Conns dir s h u c w n s.queue_at found room (λ p. refl)) in
    (c, q, same, room, rw (room, channel_remove_member c w (with_mu (reading 0) s) member) e)

-- What the loop leaves: a sound store with the same sessions, a user without channels, and the
-- members as before but for that user in the channels named.
abbrev pub Departs : (Text → Option ℕ) → ℕ → Text → List Text → Store → Store → Type 0
Departs dir u w names s t =
    IsSoundFor dir t
    × ((n : Text) → contains (t.user_at u).channels n ≡ false)
    × (t.sessions ≡ s.sessions)
    × ((n w' : Text)
        → is_member t n w' ≡ (not (text_beq w w' && contains names n) && is_member s n w'))

is_member-fewer :
    (n m w w' : Text) (ns : List Text) (before : Bool)
    → (not (text_beq w w' && contains ns m) && (not (text_beq n m && text_beq w w') && before))
      ≡ (not (text_beq w w' && contains (n ∷ ns) m) && before)
unfolding contains
is_member-fewer n m w w' ns before = ground arith

fewer_names :
    (n m : Text) (ns : List Text)
    → contains ns n ≡ false
    → contains ns m ≡ (not (text_beq n m) && contains (n ∷ ns) m)
unfolding contains
fewer_names n m ns h = ground (arith, text_beq_iff n m)

pub leave_each_lem :
    (dir : Text → Option ℕ) (u : ℕ) (w : Text) (names : List Text) (s : Store)
    → IsSoundFor dir s
    → dir w ≡ some u
    → Distinct names
    → ((n : Text) → contains names n ≡ contains (s.user_at u).channels n)
    → (t : Store) × (leave_each u w names (with_mu free s) ≡ done tt (with_mu free t))
      × Departs dir u w names s t
unfolding leave_each
leave_each_lem dir u w [] s h found d same = (
  s,
  refl,
  (h, λ n. sym (same n) ∙ unfold contains in refl, refl, λ n w'. unfold contains in ground arith),
)
leave_each_lem dir u w (n ∷ ns) s h found d same =
    let (c, q, closed, room, e) =
      leave_one_lem dir u w n s h found (sym (same n) ∙ unfold contains in rw (==-self n)) in
    let s' = tidied n c (departed u c w n q s) in
    let (t, run, rest) =
      leave_each_lem dir u w ns s' (departed-tidied dir s h u c w n q found room closed) found d.1
        (λ m.
          fewer_names n m ns d.0
          ∙ ground (arith, same m, contains-erase n m (s.user_at u).channels)) in
    (
      t,
      rw e run,
      (
        rest.0,
        rest.1,
        rest.2,
        λ m w'.
            rest.3 m w'
            ∙ rw (is_member-departed dir s h.rooms u c w n q room m w')
                (is_member-fewer n m w w' ns (is_member s m w')),
      ),
    )

-- The session of `w` has ended, and its user has no channel left: the remaining sessions agree with
-- the channels.
pub Rooms-without :
    (dir : Text → Option ℕ) (t : Store) (u : ℕ) (w : Text)
    → Rooms dir t
    → dir w ≡ some u
    → ((n : Text) → contains (t.user_at u).channels n ≡ false)
    → ((v : Text) → lookup t.sessions v ≡ (if text_beq w v then none else dir v))
    → Rooms (session t) t
unfolding contains
Rooms-without dir t u w r found left ended = record {
  dir_named = λ v x e. ground (arith, ended v, r.dir_named v x);
  dir_old = λ v x e. ground (arith, ended v, r.dir_old v x);
  channels_distinct = λ v x e. ground (arith, ended v, r.channels_distinct v x);
  room_named = r.room_named;
  room_old = r.room_old;
  members_distinct = r.members_distinct;
  synced = λ n v. ground (arith, r.synced n v, ended v, left n, text_beq_iff w v);
}
