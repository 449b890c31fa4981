-- ===== src/Sending.antt =====
-- What a push does to the queues: the loops of `Channel.Send` and `User.SendEvent` against one
-- function on the queues.
use room_chat.Prelude.{
  ℕ, ◌≡◌, ◌∙◌, refl, true, false, List, [], ◌∷◌, ◌++◌, Text, nat_eq, text_eq, nat_beq_iff,
  if◌then◌else◌, arith, Option-cases, inl, inr,
}
use room_chat.Prelude.Sets.{contains, Distinct}
use room_chat.Prelude.Maps.{lookup, update}
use room_chat.Protocol.{Message}
use room_chat.Connection.{Queue}
use room_chat.User.{User}
use room_chat.Store.{Store, done, offer, try_send}
use room_chat.Sessions.{send_to_each, send_event, send_message_to}
use room_chat.Rooms.{send_to_members}
use room_chat.Server.Invariant.{connections_of}

-- The message is offered to the queues of `ps`, one after the other.
unfoldable pub offer_all : List ℕ → Message → (ℕ → Queue) → ℕ → Queue
offer_all [] m q = q
offer_all (p ∷ ps) m q = offer_all ps m (update q p (offer m (q p)))

-- The connections of the users `ws`, in the order of the loops.
unfoldable pub recipients : List (Text × ℕ) → (ℕ → User) → List Text → List ℕ
recipients sessions user_at [] = []
recipients sessions user_at (w ∷ ws) =
    connections_of sessions user_at w ++ recipients sessions user_at ws

pub offer_all-closed :
    (ps : List ℕ) (m : Message) (q : ℕ → Queue) (p : ℕ) → (offer_all ps m q p).closed ≡ (q p).closed
unfolding offer_all
offer_all-closed [] m q p = refl
offer_all-closed (r ∷ ps) m q p =
    ground (arith, offer_all-closed ps m (update q r (offer m (q r))) p)

pub offer_all-append :
    (ps rs : List ℕ) (m : Message) (q : ℕ → Queue)
    → offer_all (ps ++ rs) m q ≡ offer_all rs m (offer_all ps m q)
unfolding offer_all
offer_all-append [] rs m q = refl
offer_all-append (p ∷ ps) rs m q = offer_all-append ps rs m (update q p (offer m (q p)))

abbrev pub AllOpen : List ℕ → (ℕ → Queue) → Type 0
AllOpen ps q = (p : ℕ) → contains ps p ≡ true → (q p).closed ≡ false

AllOpen-update :
    (ps : List ℕ) (p : ℕ) (m : Message) (q : ℕ → Queue)
    → AllOpen ps q
    → AllOpen ps (update q p (offer m (q p)))
AllOpen-update ps p m q h r e = ground (arith, h r e)

try_send_open :
    (p : ℕ) (m : Message) (s : Store)
    → (s.queue_at p).closed ≡ false
    → try_send p m s
      ≡ done tt (record s { queue_at = update s.queue_at p (offer m (s.queue_at p)) })
unfolding try_send
try_send_open p m s h = rw h

-- The select loop offers the message to each connection, and neither panics nor waits.
pub send_to_each_lem :
    (ps : List ℕ) (m : Message) (s : Store)
    → AllOpen ps s.queue_at
    → send_to_each ps m s ≡ done tt (record s { queue_at = offer_all ps m s.queue_at })
unfolding send_to_each offer_all contains
send_to_each_lem [] m s h = refl
send_to_each_lem (p ∷ ps) m s h =
    rw (try_send_open p m s (h p (ground (arith, nat_beq_iff p p))))
      (send_to_each_lem ps m _ (AllOpen-update ps p m s.queue_at (λ r e. h r (ground arith))))

-- Every session holds open queues only.
abbrev pub SessionsOpen : Store → Type 0
SessionsOpen s = (w : Text) → AllOpen (connections_of s.sessions s.user_at w) s.queue_at

send_message_to_lem :
    (w : Text) (m : Message) (s : Store)
    → SessionsOpen s
    → send_message_to w m s
      ≡ done tt
          (record s { queue_at = offer_all (connections_of s.sessions s.user_at w) m s.queue_at })
unfolding send_message_to send_event offer_all
send_message_to_lem w m s h = elim (Option-cases (lookup s.sessions w)) [
  | inl e ↦ rw (e, connections_of)
  | inr (u, e) ↦
      rw (e, connections_of)
        (send_to_each_lem (s.user_at u).connections m s (λ p i. h w p (rw (e, connections_of) i)))
]

SessionsOpen-offer :
    (ps : List ℕ) (m : Message) (s : Store)
    → SessionsOpen s
    → SessionsOpen (record s { queue_at = offer_all ps m s.queue_at })
SessionsOpen-offer ps m s h w p e = offer_all-closed ps m s.queue_at p ∙ h w p e

-- While every session holds open queues only: a push to the members `ws` offers the message to all
-- connections of those who are online, in their order, and neither panics nor waits.
pub send_to_members_lem :
    (ws : List Text) (m : Message) (s : Store)
    → SessionsOpen s
    → send_to_members ws m s
      ≡ done tt
          (record s { queue_at = offer_all (recipients s.sessions s.user_at ws) m s.queue_at })
unfolding send_to_members recipients offer_all
send_to_members_lem [] m s h = refl
send_to_members_lem (w ∷ ws) m s h =
    rw
      (
        send_message_to_lem w m s h,
        offer_all-append (connections_of s.sessions s.user_at w)
            (recipients s.sessions s.user_at ws) m s.queue_at,
      )
      (send_to_members_lem ws m _
        (SessionsOpen-offer (connections_of s.sessions s.user_at w) m s h))

-- To one queue: the message is appended once if the connection is among distinct recipients and
-- its queue has room, and the queue is as it was otherwise.
pub offer_all_lem :
    (ps : List ℕ) (m : Message) (q : ℕ → Queue) (p : ℕ)
    → Distinct ps
    → offer_all ps m q p ≡ (if contains ps p then offer m (q p) else q p)
unfolding offer_all contains
offer_all_lem [] m q p d = refl
offer_all_lem (r ∷ ps) m q p d =
    ground (arith, offer_all_lem ps m (update q r (offer m (q r))) p d.1, nat_beq_iff r p)
