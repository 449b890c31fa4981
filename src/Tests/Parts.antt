-- ===== src/Tests/Parts.antt =====
-- The theorems on the other parts at concrete inputs.
use room_chat.Prelude.{
  ℕ, zero, suc, ap, ◌∙◌, Bool-cases, ◌≤◌, ◌≡◌, ◌⊎◌, refl, Option, some, none, true, Text, text,
  text_beq, text_beq_iff, List, [], ◌∷◌, nat_beq, inl, inr, text_eq, nat_eq, arith, if◌then◌else◌,
}
use room_chat.Protocol.{Message, MessageAction, is_login, CreateUserRequest}
use room_chat.Auth.{get_encoded_base64_token, parse_basic_auth, credentials}
use room_chat.Auth.RoundTrip.{parse-get_encoded_base64_token}
use room_chat.Connection.{Client, dispatch, read_message}
use room_chat.Connection.Gate.{read_message-dispatch}
use room_chat.Elastic.{
  SearchClient, index_message, indexed_message, indexed, transport_error, IndexReply,
  IndexedMessage, Attempt, success, retryable,
}
use room_chat.Elastic.Indexing.{RetriesUpTo, index_message-stores}
use room_chat.User.{Profile}
use room_chat.Users.{Repository, Result, ok, err, user_not_found, register, login}
use room_chat.Users.Accounts.{Verifies, KeepsCreated, login-register}
use room_chat.Tests.Fixture.{plain, alice, say_go, profile_of}

parse-get_encoded_base64_token_example :
    parse_basic_auth (get_encoded_base64_token alice (text "p:w")) ≡ credentials alice (text "p:w")
parse-get_encoded_base64_token_example =
    parse-get_encoded_base64_token alice (text "p:w") (omega arith) (omega arith)
      (omega arith, (omega arith, (omega arith, (omega arith, (omega arith, tt)))))

-- A frame that parses to itself.
abbrev unmarshal : Message → Text ⊎ Message
unmarshal m = inr m

abbrev validate : Message → Option Text
validate m = none

abbrev alice_client : Client
alice_client = record { conn_id = text "c"; user = alice; authenticated = true }

dispatched_say :
    read_message unmarshal validate alice_client (text "u") 7 say_go
    ≡ dispatch (record say_go { user = alice; client_id = text "c"; id = text "u"; created_at = 7 })
unfolding read_message is_login
dispatched_say = refl

read_message-dispatch_example :
    (x : Message) × (unmarshal say_go ≡ inr x)
    × (validate x ≡ none)
    × (record say_go { user = alice; client_id = text "c"; id = text "u"; created_at = 7 }
        ≡ record x { user = alice; client_id = text "c"; id = text "u"; created_at = 7 })
    × ((say_go.action ≡ MessageAction.login) ⊎ (true ≡ true))
read_message-dispatch_example =
    read_message-dispatch unmarshal validate alice_client (text "u") 7 say_go _ dispatched_say

-- A cluster that fails twice, and a library that tries until an attempt succeeds.
abbrev replies : ℕ → IndexReply
replies (suc (suc zero)) = indexed
replies _ = transport_error

abbrev or_else : Attempt → Attempt → Attempt
or_else success a = success
or_else retryable a = a

abbrev try_upto : ℕ → (ℕ → Attempt) → Attempt
try_upto zero f = f zero
try_upto (suc k) f = or_else (try_upto k f) (f (suc k))

abbrev cluster : SearchClient
cluster = record {
  Body = IndexedMessage;
  marshal = λ m. some m;
  index = λ id body n. replies n;
  retry = try_upto;
}

or_else_last : (a : Attempt) → or_else a success ≡ success
or_else_last success = refl
or_else_last retryable = refl

tried : (k : ℕ) (f : ℕ → Attempt) (n : ℕ) → n ≤ k → f n ≡ success → try_upto k f ≡ success
tried zero f n few worked = ground (arith, worked)
tried (suc k) f n few worked = elim (Bool-cases (nat_beq n (suc k))) [
  | inl last ↦ ap (or_else (try_upto k f)) (ground (arith, worked)) ∙ or_else_last (try_upto k f)
  | inr earlier ↦ ap (λ a. or_else a (f (suc k))) (tried k f n (ground arith) worked)
]

or_else-success : (a b : Attempt) → or_else a b ≡ success → (a ≡ success) ⊎ (b ≡ success)
or_else-success success b e = inl refl
or_else-success retryable b e = inr e

worked_once :
    (k : ℕ) (f : ℕ → Attempt) → try_upto k f ≡ success → (n : ℕ) × (n ≤ k) × (f n ≡ success)
worked_once zero f e = (0, omega arith, e)
worked_once (suc k) f e = elim (or_else-success (try_upto k f) (f (suc k)) e) [
  | inl before ↦ let (n, few, worked) = worked_once k f before in (n, omega (arith, few), worked)
  | inr last ↦ (suc k, omega arith, last)
]

cluster-RetriesUpTo : RetriesUpTo cluster
cluster-RetriesUpTo k f = (tried k f, worked_once k f)

say_stored : index_message cluster say_go ≡ none
unfolding index_message indexed_message
say_stored = refl

index_message-stores_example :
    (body : IndexedMessage) × (n : ℕ) × (some (indexed_message say_go) ≡ some body)
    × (n ≤ 3)
    × (replies n ≡ indexed)
index_message-stores_example = index_message-stores cluster cluster-RetriesUpTo say_go say_stored

-- A table of the users created, the latest first.
abbrev pub stored_profile : CreateUserRequest → Profile
stored_profile req = record (profile_of req.username) { nick = req.nick; password = req.password }

abbrev find_account : Text → List CreateUserRequest → Result Profile
find_account name [] = err user_not_found
find_account name (req ∷ db) =
    if text_beq req.username name then ok (stored_profile req) else find_account name db

abbrev pub accounts : Repository
accounts = record {
  Db = List CreateUserRequest;
  create = λ req db. (ok 1, req ∷ db);
  update = λ id req db. (err user_not_found, db);
  get_by_username = find_account;
  delete = λ id db. (none, db);
}

pub plain-Verifies : Verifies plain
plain-Verifies salt password hash made = ground (arith, text_beq_iff hash password)

pub accounts-KeepsCreated : KeepsCreated accounts
accounts-KeepsCreated req id db db' e = (
  stored_profile req,
  ground (arith, e, text_beq_iff req.username req.username),
  ground (arith, e),
  refl,
  refl,
)

abbrev pub new_bob : CreateUserRequest
new_bob = record { username = text "bob"; password = text "pw"; nick = text "b" }

registered_bob : register accounts plain 0 new_bob [] ≡ (ok 1, new_bob ∷ [])
unfolding register
registered_bob = refl

login-register_example :
    (profile : Profile) × (profile.id ≡ 1)
    × (profile.username ≡ text "bob")
    × (login accounts plain (text "bob") (text "pw") (new_bob ∷ []) ≡ ok profile)
login-register_example =
    login-register accounts plain 0 new_bob 1 [] (new_bob ∷ []) plain-Verifies accounts-KeepsCreated
      registered_bob
