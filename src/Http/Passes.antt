-- ===== src/Http/Passes.antt =====
-- Who gets messages over HTTP.
use room_chat.Prelude.{
  ℕ, ◌≡◌, ◌≢◌, ◌∙◌, sym, refl, ap, Bool, true, false, Option, some, none, Text, text_beq, List, [],
  ◌∷◌, text_eq, inl, inr, Option-cases, Bool-cases,
}
use room_chat.Prelude.Maps.{lookup}
use room_chat.Protocol.{UserErrMessage}
use room_chat.User.{Profile}
use room_chat.Users.{Result, ok, err, Repository, Bcrypt, login}
use room_chat.Elastic.{IndexedMessage}
use room_chat.Elastic.Documents.{QueryClient, list_documents}
use room_chat.Store.{Store, Outcome, done, panicked, waits, continue, pure}
use room_chat.Server.Invariant.{is_member}
use room_chat.Http.{
  Body, messages_body, error_body, Writer, empty_writer, Context, send_error, authenticated,
  basic_auth, list_answer, list_for, list_as, handle_list_messages,
}
use room_chat.Http.Guards.{membership, list_as-member}
use room_chat.Http.Routes.{listed, with_same_db, get_messages, serve_http}

-- The response has messages.
abbrev pub HasMessages : Writer → List IndexedMessage → Type 0
HasMessages w messages = w.bodies ≡ messages_body (some messages) ∷ []

done_inj : {A : Type 0} {a b : A} {s t : Store} → done a s ≡ done b t → (a ≡ b) × (s ≡ t)
done_inj e = (cc, cc)

refused_has :
    {m : UserErrMessage} {messages : List IndexedMessage}
    → ◌≢◌ {A = List Body} (error_body m ∷ []) (messages_body (some messages) ∷ [])
refused_has e = cc

some_inj : {A : Type 0} {a b : A} → some a ≡ some b → a ≡ b
some_inj e = cc

membership-true : (o : Option ℕ) (b : Bool) → membership o b ≡ some true → b ≡ true
membership-true none b e = absurd cc
membership-true (some c) b e = cc

module _ (client : QueryClient) (channel author_id : Text) (messages : List IndexedMessage) where
  list_answer-has :
      (o : Option (List IndexedMessage))
      → HasMessages (list_answer o empty_writer) messages
      → o ≡ some messages
  unfolding send_error
  list_answer-has none has = absurd cc
  list_answer-has (some ms) has = cc

  list_for-has :
      (m : Option Bool)
      → HasMessages (list_for client channel author_id m empty_writer) messages
      → (m ≡ some true) × (list_documents client channel author_id ≡ some messages)
  unfolding send_error
  list_for-has none has = absurd cc
  list_for-has (some false) has = absurd cc
  list_for-has (some true) has = (refl, list_answer-has _ has)

  module _ (s s' : Store) (w : Writer) (has : HasMessages w messages) where
    list_as-has :
        (name : Text)
        → list_as client name channel author_id empty_writer s ≡ done w s'
        → (s' ≡ s)
          × (is_member s channel name ≡ true)
          × (list_documents client channel author_id ≡ some messages)
    unfolding send_error
    list_as-has name run = elim (Bool-cases (text_beq channel [])) [
      | inl absent ↦
          let (same, same_store) = done_inj (rw absent at run) in
          absurd (refused_has (ap (λ x. x.bodies) same ∙ has))
      | inr asked ↦
          let (same, same_store) =
            done_inj
              (sym (list_as-member client name channel author_id empty_writer s asked) ∙ run) in
          let (inside, listed_all) = list_for-has _ (ap (λ x. x.bodies) same ∙ has) in
          (
            sym same_store,
            membership-true (lookup s.rooms channel) (is_member s channel name) inside,
            listed_all,
          )
    ]

    handle_list_messages-has :
        (context : Context)
        → handle_list_messages client context channel author_id empty_writer s ≡ done w s'
        → (name : Text) × (context.username ≡ some name)
          × (s' ≡ s)
          × (is_member s channel name ≡ true)
          × (list_documents client channel author_id ≡ some messages)
    unfolding handle_list_messages send_error
    handle_list_messages-has context run = elim (Option-cases context.username) [
      | inl unknown ↦
          let (same, same_store) = done_inj (rw unknown at run) in
          absurd (refused_has (ap (λ x. x.bodies) same ∙ has))
      | inr (name, known) ↦
          let (same, inside, all) = list_as-has name (rw known at run) in
          (name, known, same, inside, all)
    ]

module _ (repo : Repository) (bcrypt : Bcrypt) (client : QueryClient) (salt : ℕ) (db db' : repo.Db)
    (channel author_id : Text) (messages : List IndexedMessage) (s s' : Store) (w : Writer) where
  continued :
      (o : Outcome Writer)
      → continue o (λ x. pure (with_same_db repo bcrypt client salt db x)) ≡ done (w, db') s'
      → o ≡ done w s'
  continued (done x t) e = cc
  continued (panicked p) e = absurd cc
  continued (waits p) e = absurd cc

  abbrev Passed : Option (Text × Text) → Type 0
  Passed auth =
      (name : Text) × (password : Text) × (profile : Profile) × (auth ≡ some (name, password))
      × (login repo bcrypt name password db ≡ ok profile)
      × (s' ≡ s)
      × (is_member s channel name ≡ true)
      × (list_documents client channel author_id ≡ some messages)

  authenticated-Passed :
      (name password : Text) (r : Result Profile)
      → login repo bcrypt name password db ≡ r
      → HasMessages w messages
      → authenticated repo bcrypt name r
          (λ context x.
            listed repo bcrypt client salt db
              (handle_list_messages client context channel author_id x))
          (λ x. pure (with_same_db repo bcrypt client salt db x))
          empty_writer
          s
        ≡ done (w, db') s'
      → Passed (some (name, password))
  unfolding send_error
  authenticated-Passed name password (err e) known has run =
      let (same, same_store) = done_inj run in
      absurd (refused_has (ap (λ x. x.0.bodies) same ∙ has))
  authenticated-Passed name password (ok profile) known has run =
      let (user, named, same, inside, all) =
        handle_list_messages-has client channel author_id messages s s' w has _ (continued _ run) in
      (name, password, profile, refl, known, same, rw (some_inj named) inside, all)

  auth-Passed :
      (auth : Option (Text × Text))
      → HasMessages w messages
      → basic_auth repo bcrypt auth db
          (λ context x.
            listed repo bcrypt client salt db
              (handle_list_messages client context channel author_id x))
          (λ x. pure (with_same_db repo bcrypt client salt db x))
          empty_writer
          s
        ≡ done (w, db') s'
      → Passed auth
  unfolding send_error
  auth-Passed none has run =
      let (same, same_store) = done_inj run in
      absurd (refused_has (ap (λ x. x.0.bodies) same ∙ has))
  auth-Passed (some (name, password)) has run =
      authenticated-Passed name password (login repo bcrypt name password db) refl has run

  -- An HTTP request for the messages of a channel that gets messages: it has credentials that log
  -- a user in, that user is a member of the channel, the messages are what the index lists, and the
  -- server's memory is as it was.
  pub serve_http-passes :
      (auth : Option (Text × Text))
      → serve_http repo bcrypt client salt db (get_messages auth channel author_id) s
        ≡ done (w, db') s'
      → HasMessages w messages
      → (name : Text) × (password : Text) × (profile : Profile) × (auth ≡ some (name, password))
        × (login repo bcrypt name password db ≡ ok profile)
        × (s' ≡ s)
        × (is_member s channel name ≡ true)
        × (list_documents client channel author_id ≡ some messages)
  unfolding serve_http
  serve_http-passes auth run has = auth-Passed auth has run
