-- ===== src/Tests/Web.antt =====
-- The theorems on the HTTP handlers and the repository at concrete inputs.
use room_chat.Prelude.{
  ℕ, ◌≡◌, refl, some, none, false, Text, text, text_beq, text_beq_iff, List, [], ◌∷◌, text_eq,
  arith, if◌then◌else◌,
}
use room_chat.Prelude.Maps.{lookup}
use room_chat.Protocol.{not_member_of_channel}
use room_chat.User.{Profile}
use room_chat.Users.{register, ok}
use room_chat.Users.Postgres.{
  Database, Value, number, time, string, insert_user, select_user, Reply, row, failed, no_rows,
  SelectsInserted, postgres_repository, postgres_repository-create,
}
use room_chat.Elastic.Documents.{QueryClient, SearchReply, list_documents}
use room_chat.Elastic.Query.{Json}
use room_chat.Store.{done}
use room_chat.Http.{
  Writer, Context, id_body, empty_writer, send_error, handle_register, basic_auth,
  handle_list_messages,
}
use room_chat.Http.Guards.{outsider_status, handle_list_messages-guards, basic_auth-handle_register}
use room_chat.Tests.Fixture.{plain, s2, alice, go}
use room_chat.Tests.Runs.{s2_state}
use room_chat.Tests.Parts.{accounts, new_bob, plain-Verifies, accounts-KeepsCreated}

abbrev unreachable : QueryClient
unreachable = record {
  Body = Json;
  Reply = Unit;
  print = λ q. some q;
  search = λ body. SearchReply.transport_error;
  decode_hits = λ reply. none;
  decode_aggregations = λ reply. none;
}

abbrev alice_context : Context
alice_context = record { user_id = some 1; username = some alice }

handle_list_messages-guards_example :
    handle_list_messages unreachable alice_context go [] empty_writer s2
    ≡ done (send_error (outsider_status (lookup s2.rooms go)) not_member_of_channel empty_writer) s2
handle_list_messages-guards_example =
    handle_list_messages-guards unreachable alice go [] empty_writer s2 refl alice_context refl
      s2_state.5

unreachable_lists : list_documents unreachable go [] ≡ none
unfolding list_documents
unreachable_lists = refl

abbrev created_writer : Writer
created_writer = record { status = some 201; challenge = false; bodies = id_body 1 ∷ [] }

bob_registers :
    handle_register accounts plain 0 (some new_bob) [] empty_writer ≡ (created_writer, new_bob ∷ [])
unfolding register
bob_registers = refl

basic_auth-handle_register_example :
    (id : ℕ) × (id_body 1 ∷ [] ≡ id_body id ∷ [])
    × (basic_auth accounts plain
          (some (text "bob", text "pw"))
          (new_bob ∷ [])
          (λ context w. context.user_id)
          (λ w. none)
          empty_writer
        ≡ some id)
basic_auth-handle_register_example =
    basic_auth-handle_register accounts plain 0 new_bob [] (new_bob ∷ []) created_writer
      (λ context w. context.user_id) (λ w. none) empty_writer plain-Verifies accounts-KeepsCreated
      bob_registers refl

-- A table as the list of the rows inserted, the latest first: names, hashes and nicks.
abbrev select_row : Text → List (Text × Text × Text) → Reply (List Value)
select_row name [] = failed no_rows
select_row name ((username, hash, nick) ∷ db) =
    if text_beq username name
    then row (number 1 ∷ string username ∷ string nick ∷ time 0 ∷ time 0 ∷ string hash ∷ [])
    else select_row name db

abbrev reply_row :
    Text → List Value → List (Text × Text × Text) → Reply (List Value) × List (Text × Text × Text)
reply_row statement (string name ∷ string hash ∷ string nick ∷ []) db =
    if text_beq statement insert_user
    then (row (number 1 ∷ []), (name, hash, nick) ∷ db)
    else (failed no_rows, db)
reply_row statement (string name ∷ []) db =
    if text_beq statement select_user then (select_row name db, db) else (failed no_rows, db)
reply_row statement _ db = (failed no_rows, db)

abbrev table : Database
table = record {
  Db = List (Text × Text × Text);
  query_row = reply_row;
  exec = λ statement values db. (none, db);
  scan_error = text "sql: expected other destination arguments in Scan";
}

table-SelectsInserted : SelectsInserted table
table-SelectsInserted name hash nick id db e = (0, 0, ground (arith, e, text_beq_iff name name))

postgres_repository-create_example :
    (profile : Profile) × ((postgres_repository table).get_by_username
        (text "bob")
        ((text "bob", text "pw", text "b") ∷ [])
      ≡ ok profile)
    × (profile.id ≡ 1)
    × (profile.username ≡ text "bob")
    × (profile.nick ≡ text "b")
    × (profile.password ≡ text "pw")
postgres_repository-create_example =
    postgres_repository-create table table-SelectsInserted new_bob 1 []
      ((text "bob", text "pw", text "b") ∷ []) refl
