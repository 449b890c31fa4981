-- ===== src/Server/Chat.antt =====
-- The chat as its users see it, the members of each channel and who is logged in, and what an event
-- does to it.
use room_chat.Prelude.{
  ◌≡◌, ℕ, Bool, true, false, not, ◌&&◌, ◌||◌, Option, none, some, List, Text, text_beq, text_eq,
  nat_beq, if◌then◌else◌,
}
use room_chat.Prelude.Maps.{lookup}
use room_chat.Protocol.{Message, MessageAction, join, leave, login}
use room_chat.Users.{Repository, Bcrypt}
use room_chat.Server.Logins.{accepted_name}
use room_chat.Connection.{Client}
use room_chat.Store.{Store}
use room_chat.Server.Run.{Event, registered, unregistered, dispatched}
use room_chat.Server.Invariant.{IsValid, is_member}
use room_chat.Server.Keeps.Clients.{is_last}

-- Whether a key has an entry.
abbrev pub is_present {ℓ} : {A : Type ℓ} → Option A → Bool
is_present none = false
is_present (some a) = true

-- The user of the connection that sends, if it is registered, leaves the channel.
abbrev pub left_by : Store → Option ℕ → Text → Text → Text → Bool
left_by s none channel n w = is_member s n w
left_by s (some p) channel n w =
    not (text_beq channel n && text_beq (s.client_at p).user w) && is_member s n w

-- The members after a message. Who joins is the user named in the message, if online, where the
-- connection is registered.
abbrev pub moved_by : Store → MessageAction → Message → Text → Text → Bool
moved_by s join m n w =
    (is_present (lookup s.sessions m.user) && is_present (lookup s.clients m.client_id))
      && (text_beq m.channel n && text_beq m.user w)
    || is_member s n w
moved_by s leave m n w = left_by s (lookup s.clients m.client_id) m.channel n w
moved_by s _ m n w = is_member s n w

-- The members after an event: the user of a connection that goes leaves all channels with the last
-- connection.
abbrev pub moved : Store → Event → Text → Text → Bool
moved s (registered p) n w = is_member s n w
moved s (unregistered p) n w =
    not (is_last s p && text_beq (s.client_at p).user w) && is_member s n w
moved s (dispatched m) n w = moved_by s m.action m n w

-- Whether the registry has this connection.
abbrev pub is_at : Option ℕ → ℕ → Bool
is_at none p = false
is_at (some q) p = nat_beq q p

-- Who is logged in on a connection, if it is registered.
abbrev pub shown : List (Text × ℕ) → Client → ℕ → Option Text
shown clients c p =
    if is_at (lookup clients c.conn_id) p && c.authenticated then some c.user else none

abbrev pub who : Store → ℕ → Option Text
who s p = shown s.clients (s.client_at p) p

abbrev pub or_else : Option Text → Option Text → Option Text
or_else (some w) o = some w
or_else none o = o

-- A login changes nothing for a connection that is logged in, and for the others.
abbrev pub who_by : Store → Option ℕ → Option Text → ℕ → Option Text
who_by s none name q = who s q
who_by s (some p) name q = if nat_beq p q then or_else (who s p) name else who s q

module _ (repo : Repository) (bcrypt : Bcrypt) (db : repo.Db) where
  abbrev pub who_dispatched : Store → MessageAction → Message → ℕ → Option Text
  who_dispatched s login m q =
      who_by s (lookup s.clients m.client_id) (accepted_name repo bcrypt db m.request.token) q
  who_dispatched s _ m q = who s q

  -- Who is logged in after an event.
  abbrev pub who_after : Store → Event → ℕ → Option Text
  who_after s (registered p) q = who s q
  who_after s (unregistered p) q = if nat_beq p q then none else who s q
  who_after s (dispatched m) q = who_dispatched s m.action m q

-- A valid store with these members.
abbrev pub Becomes : (Text → Text → Bool) → Store → Type 0
Becomes after t = IsValid t × ((n w : Text) → is_member t n w ≡ after n w)

-- The members and the logins after an event.
abbrev pub Follows : (repo : Repository) → Bcrypt → repo.Db → Store → Event → Store → Type 0
Follows repo bcrypt db s e t =
    Becomes (moved s e) t × ((q : ℕ) → who t q ≡ who_after repo bcrypt db s e q)
