-- ===== src/Server/Steps/Depart.antt =====
-- A member leaves a channel, and the channel goes if nobody is left in it.
use room_chat.Prelude.{
  ℕ, ◌≡◌, ◌∙◌, not, ◌&&◌, refl, true, Option, some, none, Text, List, text_eq, nat_eq, nat_beq,
  text_beq, text_beq_iff, length, inl, inr, Bool-cases, arith, if◌then◌else◌, [], ◌∷◌,
}
use room_chat.Prelude.Sets.{contains, erase}
use room_chat.Prelude.Maps.{lookup, delete, lookup-delete}
use room_chat.Connection.{Queue}
use room_chat.Channel.{remove_user}
use room_chat.Store.{Store, free, done, set_channel, ◌>>◌}
use room_chat.Rooms.{channel_remove_user, registry_delete, send_leave_message}
use room_chat.Server.Steps.Sends.{Conns-SessionsOpen, send_leave_message-Queues}
use room_chat.Server.Membership.{cleanup_empty_channel}
use room_chat.Server.Invariant.{Conns, Rooms, is_member}
use room_chat.Server.Steps.Frame.{Conns-frame, Rooms-frame, SameConnections-update, SameClosed}
use room_chat.Server.Steps.Enroll.{link, withdraw-Rooms, is_member-withdraw}
use room_chat.Server.Steps.Registry.{deleted-Rooms, is_member-deleted}
use room_chat.Server.Steps.Valid.{with_mu, IsSoundFor, PopulatedBut, Populated-filled}

-- The registry without the channel `c`, named `n`, if that is empty.
abbrev pub tidied : Text → ℕ → Store → Store
tidied n c s = record s {
  rooms = if nat_beq (length (s.channel_at c).users) 0 then delete n s.rooms else s.rooms;
}

pub cleanup_lem :
    (n : Text) (c : ℕ) (s : Store)
    → cleanup_empty_channel n c (with_mu free s) ≡ done tt (with_mu free (tidied n c s))
unfolding cleanup_empty_channel registry_delete
cleanup_lem n c s = elim (Bool-cases (nat_beq (length (s.channel_at c).users) 0)) [
  | inl e ↦ rw e
  | inr e ↦ rw e
]

nil_of_length : (xs : List Text) → nat_beq (length xs) 0 ≡ true → xs ≡ []
nil_of_length [] e = refl
nil_of_length (x ∷ xs) e = absurd (ground arith)

-- Cleaning up leaves no empty channel.
pub tidied-IsSound :
    (dir : Text → Option ℕ) (n : Text) (c : ℕ) (s : Store)
    → Conns s
    → Rooms dir s
    → PopulatedBut n s
    → lookup s.rooms n ≡ some c
    → IsSoundFor dir (tidied n c s)
unfolding registry_delete
tidied-IsSound dir n c s conns rooms but room =
    elim (Bool-cases (nat_beq (length (s.channel_at c).users) 0)) [
      | inl e ↦ rw e (record {
        conns =
            Conns-frame s.user_at s.channel_at s.next_channel _ s.queue_at s.mu (λ v. (refl, refl))
              (λ r. refl) conns;
        rooms = deleted-Rooms dir s rooms n c room (nil_of_length _ e);
        populated = λ n' c' found. ground (arith, but n' c', lookup-delete n n' s.rooms);
      })
      | inr e ↦ rw e (record {
        conns = conns;
        rooms = rooms;
        populated = Populated-filled n c s but room (ground arith);
      })
    ]

-- The writes of a departure, and the messages that it queues.
abbrev pub departed : ℕ → ℕ → Text → Text → (ℕ → Queue) → Store → Store
departed u c w n q s =
    record (link u c (erase w (s.channel_at c).users) (erase n (s.user_at u).channels) s) {
      queue_at = q;
      mu = free;
    }

module _ (dir : Text → Option ℕ) (s : Store) (h : IsSoundFor dir s) (u c : ℕ) (w n : Text)
    (q : ℕ → Queue) (found : dir w ≡ some u) (room : lookup s.rooms n ≡ some c)
    (same : SameClosed q s.queue_at) where
  pub departed-Conns : Conns (departed u c w n q s)
  departed-Conns =
      Conns-frame _ _ s.next_channel s.rooms q free
        (SameConnections-update s.user_at u (erase n (s.user_at u).channels)) same h.conns

  departed-Rooms : Rooms dir (departed u c w n q s)
  departed-Rooms =
      Rooms-frame s.client_at q s.clients s.sessions free
        (withdraw-Rooms dir s h.rooms u c w n found room)

  pub departed-tidied : IsSoundFor dir (tidied n c (departed u c w n q s))
  departed-tidied =
      tidied-IsSound dir n c (departed u c w n q s) departed-Conns departed-Rooms
        (λ n' c' e other. ground (
          arith,
          h.populated n' c',
          h.rooms.room_named n' c,
          h.rooms.room_named n c,
          text_beq_iff n n',
        ))
        room

-- `RemoveUser` of a member.
pub channel_remove_member :
    (c : ℕ) (w : Text) (s : Store)
    → contains (s.channel_at c).users w ≡ true
    → channel_remove_user c w s
      ≡ done none
          (set_channel c (record (s.channel_at c) { users = erase w (s.channel_at c).users }) s)
unfolding channel_remove_user remove_user
channel_remove_member c w s member = ground arith

-- The push to those who stay, and the cleanup.
pub notify_tidy :
    (u c : ℕ) (w n name : Text) (q : ℕ → Queue) (s : Store)
    → Conns (departed u c w n q s)
    → (r : ℕ → Queue) × SameClosed r q
      × ((send_leave_message c name >> cleanup_empty_channel n c) (departed u c w n q s)
          ≡ done tt (with_mu free (tidied n c (departed u c w n r s))))
notify_tidy u c w n name q s conns =
    let (r, e, same) =
      send_leave_message-Queues c (departed u c w n q s) (Conns-SessionsOpen conns) name in
    (r, same, rw e (cleanup_lem n c (departed u c w n r s)))

-- The members after a departure: all but `w` in `n`.
pub is_member-tidied :
    (n : Text) (c : ℕ) (s : Store)
    → lookup s.rooms n ≡ some c
    → (n' w' : Text) → is_member (tidied n c s) n' w' ≡ is_member s n' w'
unfolding registry_delete
is_member-tidied n c s room n' w' = elim (Bool-cases (nat_beq (length (s.channel_at c).users) 0)) [
  | inl e ↦ rw e (is_member-deleted n s c room (nil_of_length _ e) n' w')
  | inr e ↦ rw e
]

pub is_member-departed :
    (dir : Text → Option ℕ) (s : Store) (h : Rooms dir s) (u c : ℕ) (w n : Text) (q : ℕ → Queue)
    → lookup s.rooms n ≡ some c
    → (n' w' : Text)
    → is_member (tidied n c (departed u c w n q s)) n' w'
      ≡ (not (text_beq n n' && text_beq w w') && is_member s n' w')
is_member-departed dir s h u c w n q room n' w' =
    is_member-tidied n c (departed u c w n q s) room n' w'
    ∙ is_member-withdraw dir s h u c w n (erase n (s.user_at u).channels) room n' w'
