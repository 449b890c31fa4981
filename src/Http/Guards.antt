-- ===== src/Http/Guards.antt =====
-- Who gets past the HTTP handlers' guards.
use room_chat.Prelude.{
  ℕ, ◌≡◌, ◌∙◌, refl, ap, sym, Bool, true, false, Option, some, none, Text, text_beq, [], ◌∷◌,
  text_eq, arith, if◌then◌else◌, inl, inr, Option-cases,
}
use room_chat.Prelude.Sets.{contains}
use room_chat.Prelude.Maps.{lookup}
use room_chat.Protocol.{
  CreateUserRequest, user_name_empty, password_empty, internal_server, not_member_of_channel,
}
use room_chat.Users.{UserError, Result, ok, err, Repository, Bcrypt, register}
use room_chat.Users.Accounts.{Verifies, KeepsCreated, login-register}
use room_chat.Elastic.Documents.{QueryClient, list_documents}
use room_chat.Store.{Store, done}
use room_chat.Rooms.{is_user_a_member}
use room_chat.Server.Invariant.{is_member, members_of}
use room_chat.Http.{
  Writer, id_body, error_body, messages_body, empty_writer, Context, send_error, register_answer,
  registered, handle_register, authenticated, basic_auth, list_answer, list_for, list_as,
  handle_list_messages,
}

-- The status for who is no member: it tells whether the channel exists.
abbrev pub outsider_status : Option ℕ → ℕ
outsider_status none = 400
outsider_status (some c) = 401

-- What IsUserAMember returns.
abbrev pub membership : Option ℕ → Bool → Option Bool
membership none b = none
membership (some c) b = some b

pub is_user_a_member_lem :
    (n w : Text) (s : Store)
    → is_user_a_member n w s ≡ done (membership (lookup s.rooms n) (is_member s n w)) s
unfolding is_user_a_member
is_user_a_member_lem n w s = elim (Option-cases (lookup s.rooms n)) [
  | inl absent ↦ rw absent
  | inr (c, room) ↦ rw (room, members_of)
]

module _ (client : QueryClient) (name channel author_id : Text) (w : Writer) (s : Store)
    (asked : text_beq channel [] ≡ false) where
  pub list_as-member :
      list_as client name channel author_id w s
      ≡ done
          (list_for client channel author_id
            (membership (lookup s.rooms channel) (is_member s channel name))
            w)
          s
  list_as-member = rw (asked, is_user_a_member_lem channel name s)

  list_for-outsider :
      (o : Option ℕ)
      → list_for client channel author_id (membership o false) w
        ≡ send_error (outsider_status o) not_member_of_channel w
  list_for-outsider none = refl
  list_for-outsider (some c) = refl

  -- A request of an authenticated user for the messages of a channel whose name is not empty, of
  -- which the user is no member, or that does not exist: the answer is the error, with a status
  -- that tells the two apart, whatever the index holds, and the server's memory is as it was.
  pub handle_list_messages-guards :
      (context : Context)
      → context.username ≡ some name
      → is_member s channel name ≡ false
      → handle_list_messages client context channel author_id w s
        ≡ done (send_error (outsider_status (lookup s.rooms channel)) not_member_of_channel w) s
  unfolding handle_list_messages
  handle_list_messages-guards context known outsider =
      rw (known, list_as-member, outsider)
        (ap (λ r. done r s) (list_for-outsider (lookup s.rooms channel)))

  -- A member gets what the index answers.
  pub handle_list_messages-member :
      (context : Context)
      → context.username ≡ some name
      → is_member s channel name ≡ true
      → handle_list_messages client context channel author_id w s
        ≡ done (list_answer (list_documents client channel author_id) w) s
  unfolding handle_list_messages contains
  handle_list_messages-member context known member = elim (Option-cases (lookup s.rooms channel)) [
    | inl absent ↦ absurd (ground arith)
    | inr (c, room) ↦ rw (known, list_as-member, member, room)
  ]

  -- A request of a member for a channel whose name is not empty, when the index cannot be asked:
  -- the response, if nothing was written before, has the status 500 and two bodies, the error and
  -- the list that is nil, which JSON writes as null.
  pub handle_list_messages-twice :
      (context : Context)
      → context.username ≡ some name
      → w ≡ empty_writer
      → is_member s channel name ≡ true
      → list_documents client channel author_id ≡ none
      → handle_list_messages client context channel author_id w s
        ≡ done
            (record {
              status = some 500;
              challenge = false;
              bodies = error_body internal_server ∷ messages_body none ∷ [];
            })
            s
  unfolding send_error
  handle_list_messages-twice context known fresh member failed =
      handle_list_messages-member context known member ∙ rw (failed, fresh)

-- Only a registration that went well has the status 201, and it has the identifier as its body.
register_answer-ok :
    (repo : Repository) (bcrypt : Bcrypt) (r : Result ℕ)
    → (register_answer repo bcrypt r empty_writer).status ≡ some 201
    → (id : ℕ) × (r ≡ ok id)
      × ((register_answer repo bcrypt r empty_writer).bodies ≡ id_body id ∷ [])
unfolding send_error
register_answer-ok repo bcrypt (ok id) e = (id, refl, refl)
register_answer-ok repo bcrypt (err UserError.user_or_nick_already_exists) e = absurd (ground arith)
register_answer-ok repo bcrypt (err UserError.missing_required_fields) e = absurd (ground arith)
register_answer-ok repo bcrypt (err _) e = absurd (ground arith)

module _ (repo : Repository) (bcrypt : Bcrypt) (db db' : repo.Db) (w : Writer)
    (created : w.status ≡ some 201) where
  registered-ok :
      (r : Result ℕ × repo.Db)
      → registered repo bcrypt r empty_writer ≡ (w, db')
      → (id : ℕ) × (r ≡ (ok id, db')) × (w.bodies ≡ id_body id ∷ [])
  registered-ok (r, after) run =
      let (id, e, body) = register_answer-ok repo bcrypt r (ap (λ x. x.0.status) run ∙ created) in
      (id, (λ i. (e i, (ap (λ x. x.1) run) i)), sym (ap (λ x. x.0.bodies) run) ∙ body)

  checked-ok :
      (nameless keyless : Bool) (r : Result ℕ × repo.Db)
      → (if nameless
          then (send_error 422 user_name_empty empty_writer, db)
          else if keyless
          then (send_error 422 password_empty empty_writer, db)
          else registered repo bcrypt r empty_writer)
        ≡ (w, db')
      → (id : ℕ) × (r ≡ (ok id, db')) × (w.bodies ≡ id_body id ∷ [])
  unfolding send_error
  checked-ok true keyless r run = absurd (ground (arith, ap (λ x. x.0.status) run ∙ created))
  checked-ok false true r run = absurd (ground (arith, ap (λ x. x.0.status) run ∙ created))
  checked-ok false false r run = registered-ok r run

-- If bcrypt accepts the password of a hash, and the repository keeps those whom it creates: after a
-- request to register that was answered with 201, the response has one body, which is an
-- identifier, and a request with the same name and password passes the middleware, which hands on
-- that identifier and that name.
pub basic_auth-handle_register :
    (repo : Repository) (bcrypt : Bcrypt) (salt : ℕ) (req : CreateUserRequest) (db db' : repo.Db)
    (w : Writer) {A : Type 0} (next : Context → Writer → A) (refuse : Writer → A) (w' : Writer)
    → Verifies bcrypt
    → KeepsCreated repo
    → handle_register repo bcrypt salt (some req) db empty_writer ≡ (w, db')
    → w.status ≡ some 201
    → (id : ℕ) × (w.bodies ≡ id_body id ∷ [])
      × (basic_auth repo bcrypt (some (req.username, req.password)) db' next refuse w'
          ≡ next (record { user_id = some id; username = some req.username }) w')
basic_auth-handle_register repo bcrypt salt req db db' w next refuse w' verifies keeps run created =
    let (id, stored, body) =
      checked-ok repo bcrypt db db' w created (text_beq req.username []) (text_beq req.password [])
        (register repo bcrypt salt req db) run in
    let (profile, numbered, named, accepted) =
      login-register repo bcrypt salt req id db db' verifies keeps stored in
    (
      id,
      body,
      ap (λ r. authenticated repo bcrypt req.username r next refuse w') accepted
          ∙ ap (λ n. next (record { user_id = some n; username = some req.username }) w') numbered,
    )
