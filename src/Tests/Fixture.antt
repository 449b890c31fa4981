-- ===== src/Tests/Fixture.antt =====
-- A server with three connections and two users, and the libraries that it calls.
use room_chat.Prelude.{
  ℕ, ◌≡◌, refl, true, some, none, Text, text, text_beq, [], ◌∷◌, text_eq, nat_eq, arith,
}
use room_chat.Prelude.Maps.{lookup}
use room_chat.Protocol.{Message, MessageAction, zero_message, join, leave, text_message, login}
use room_chat.Auth.{get_encoded_base64_token}
use room_chat.Connection.{new_client, empty_queue, has_room}
use room_chat.User.{Profile, new_user}
use room_chat.Channel.{new_channel}
use room_chat.Users.{Repository, Bcrypt, ok, err, user_not_found}
use room_chat.Elastic.{SearchClient, IndexedMessage, indexed}
use room_chat.Store.{Store, Outcome, done}
use room_chat.Server.Run.{Event, registered, dispatched, handle_event}
use room_chat.Server.Invariant.{IsValid}
use room_chat.Server.Steps.Valid.{Returns, HasRoom}
use room_chat.Server.Keeps.LoggingIn.{FindsByName}
use room_chat.Server.Events.{IsReady, handle_event-IsValid}
use room_chat.Server.Reachable.{new_server}

abbrev pub profile_of : Text → Profile
profile_of name = record {
  id = 1;
  username = name;
  nick = name;
  password = text "pw";
  created_at = 0;
  updated_at = 0;
}

-- Everybody is known, with the same password.
abbrev pub repository : Repository
repository = record {
  Db = Unit {0};
  create = λ req db. (ok 1, db);
  update = λ id req db. (err user_not_found, db);
  get_by_username = λ name db. ok (profile_of name);
  delete = λ id db. (none, db);
}

pub repository-FindsByName : FindsByName repository
repository-FindsByName name db profile e = ground arith

abbrev pub plain : Bcrypt
plain = record { generate = λ salt password. some password; compare_hash = text_beq }

abbrev pub search : SearchClient
search = record {
  Body = IndexedMessage;
  marshal = λ m. some m;
  index = λ id body n. indexed;
  retry = λ k attempt. attempt 0;
}

-- The connection at `p` has the identifier of that one byte.
abbrev pub started : Store
started =
    new_server (λ p. new_client (p ∷ [])) (λ _. empty_queue) (λ _. new_user (profile_of []))
      (λ _. new_channel [])

abbrev pub run : Event → Store → Outcome (Unit {0})
run e s = handle_event repository plain search tt e s

abbrev pub final : Store → Outcome (Unit {0}) → Store
final s (done a t) = t
final s _ = s

abbrev pub after : Event → Store → Store
after e s = final s (run e s)

Returns-final :
    (o : Outcome (Unit {0})) (P : Store → Type 0) (s : Store) → Returns o P → P (final s o)
Returns-final (done a t) P s r = r
Returns-final (Outcome.panicked e) P s r = absurd r
Returns-final (Outcome.waits w) P s r = absurd r

pub after-IsValid : (e : Event) (s : Store) → IsValid s → IsReady s e → IsValid (after e s)
after-IsValid e s v ready =
    Returns-final (run e s) IsValid s
      (handle_event-IsValid repository plain search tt repository-FindsByName e s v ready)

Returns-done :
    (o : Outcome (Unit {0})) (P : Store → Type 0) (s : Store)
    → Returns o P
    → o ≡ done tt (final s o)
Returns-done (done a t) P s r = refl
Returns-done (Outcome.panicked e) P s r = absurd r
Returns-done (Outcome.waits w) P s r = absurd r

pub run-after : (e : Event) (s : Store) → IsValid s → IsReady s e → run e s ≡ done tt (after e s)
run-after e s v ready =
    Returns-done (run e s) IsValid s
      (handle_event-IsValid repository plain search tt repository-FindsByName e s v ready)

pub room_at :
    (s : Store) (id : Text) (p : ℕ)
    → lookup s.clients id ≡ some p
    → has_room (s.queue_at p) ≡ true
    → HasRoom s id
room_at s id p e room q found = ground (arith, e, found, room)

abbrev pub request_of : ℕ → Text → MessageAction → Text → Text → Message
request_of p user action channel token = record zero_message {
  action = action;
  client_id = p ∷ [];
  user = user;
  channel = channel;
  request_id = text "r";
  request = record { content = text "hello"; token = token };
}

-- Connection 0 logs in as alice and joins `go`.
abbrev pub alice : Text
alice = text "alice"

abbrev pub go : Text
go = text "go"

abbrev pub login_alice : Message
login_alice = request_of 0 [] login [] (get_encoded_base64_token alice (text "pw"))

abbrev pub join_go : Message
join_go = request_of 0 alice join go []

abbrev pub say_go : Message
say_go = request_of 0 alice text_message go []

abbrev pub leave_go : Message
leave_go = request_of 0 alice leave go []

abbrev pub s1 : Store
s1 = after (registered 0) started

abbrev pub s2 : Store
s2 = after (dispatched login_alice) s1

abbrev pub s3 : Store
s3 = after (dispatched join_go) s2
