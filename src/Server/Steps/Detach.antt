-- ===== src/Server/Steps/Detach.antt =====
-- A client comes, and goes: the writes of addClient, and those of removeClient up to the channels.
use room_chat.Prelude.{
  ℕ, ◌≡◌, ◌∙◌, refl, true, false, not, ◌&&◌, Option, some, none, Text, List, [], ◌∷◌, text_eq,
  nat_eq, nat_beq, text_beq_iff, ltb, length, arith,
}
use room_chat.Prelude.Sets.{contains, erase, contains-erase, erase-Distinct, Distinct}
use room_chat.Prelude.Maps.{lookup, update, delete, lookup-insert, lookup-delete}
use room_chat.User.{User, username, has_connections}
use room_chat.Store.{Store}
use room_chat.Server.Clients.{insert_client}
use room_chat.Server.Invariant.{Conns, Rooms, is_attached}

-- A client as `NewClient` makes it, under an identifier that no registered client has.
pub record IsNew (s : Store) (p : ℕ) : Type 0 where
  pub unknown : lookup s.clients (s.client_at p).conn_id ≡ none
  pub unused : (s.queue_at p).closed ≡ false
  pub anonymous : (s.client_at p).authenticated ≡ false

pub insert_client-Conns : (s : Store) (p : ℕ) → IsNew s p → Conns s → Conns (insert_client p s)
unfolding insert_client
insert_client-Conns s p new h = record {
  client_named = λ i q e. ground (
    arith,
    h.client_named i q,
    lookup-insert (s.client_at p).conn_id i p s.clients,
    text_beq_iff (s.client_at p).conn_id i,
  );
  open_queue = λ i q e.
      ground
        (arith, h.open_queue i q, lookup-insert (s.client_at p).conn_id i p s.clients, new.unused);
  session_named = h.session_named;
  session_old = h.session_old;
  online = h.online;
  connections_distinct = h.connections_distinct;
  attached = λ v q e. ground (
    arith,
    h.attached v q,
    new.unknown,
    lookup-insert (s.client_at p).conn_id (s.client_at q).conn_id p s.clients,
    text_beq_iff (s.client_at p).conn_id (s.client_at q).conn_id,
  );
  logged_in = λ i q e. ground (
    arith,
    h.logged_in i q,
    h.attached (s.client_at p).user p,
    new.unknown,
    new.anonymous,
    lookup-insert (s.client_at p).conn_id i p s.clients,
  );
}

-- The store after `p` has been deleted from the clients and its queue closed, with the sessions
-- and the users given.
abbrev pub without : ℕ → List (Text × ℕ) → (ℕ → User) → Store → Store
without p sessions user_at s = record s {
  clients = delete (s.client_at p).conn_id s.clients;
  queue_at = update s.queue_at p (record (s.queue_at p) { closed = true });
  sessions = sessions;
  user_at = user_at;
}

module _ (s : Store) (h : Conns s) (p : ℕ)
    (registered : lookup s.clients (s.client_at p).conn_id ≡ some p) where
  -- It is enough that `p` is gone from the sessions, and nobody else.
  without-Conns :
      (sessions : List (Text × ℕ)) (user_at : ℕ → User)
      → ((v : Text) (q : ℕ)
          → is_attached (without p sessions user_at s) v q
            ≡ (not (nat_beq p q) && is_attached s v q))
      → ((v : Text) (t : ℕ) → lookup sessions v ≡ some t → lookup s.sessions v ≡ some t)
      → ((t : ℕ) → username (user_at t) ≡ username (s.user_at t))
      → ((v : Text) (t : ℕ)
          → lookup sessions v ≡ some t
          → (has_connections (user_at t) ≡ true) × Distinct (user_at t).connections)
      → Conns (without p sessions user_at s)
  without-Conns sessions user_at gone fewer named kept = record {
    client_named = λ i q e.
        ground (arith, h.client_named i q, lookup-delete (s.client_at p).conn_id i s.clients);
    open_queue = λ i q e. ground (
      arith,
      h.open_queue i q,
      h.client_named i q,
      lookup-delete (s.client_at p).conn_id i s.clients,
      text_beq_iff (s.client_at p).conn_id i,
    );
    session_named = λ v t e. named t ∙ h.session_named v t (fewer v t e);
    session_old = λ v t e. h.session_old v t (fewer v t e);
    online = λ v t e. (kept v t e).0;
    connections_distinct = λ v t e. (kept v t e).1;
    attached = λ v q e. ground (
      arith,
      gone v q,
      h.attached v q,
      registered,
      lookup-delete (s.client_at p).conn_id (s.client_at q).conn_id s.clients,
      text_beq_iff (s.client_at p).conn_id (s.client_at q).conn_id,
    );
    logged_in = λ i q e. ground (
      arith,
      gone (s.client_at q).user q,
      h.logged_in i q,
      h.client_named i q,
      lookup-delete (s.client_at p).conn_id i s.clients,
      text_beq_iff (s.client_at p).conn_id i,
    );
  }

  -- Nobody is online under the client's name.
  pub without_session-Conns :
      lookup s.sessions (s.client_at p).user ≡ none → Conns (without p s.sessions s.user_at s)
  unfolding contains
  without_session-Conns absent =
      without-Conns s.sessions s.user_at (λ v q. ground (arith, h.attached v p, absent))
        (λ v t e. e) (λ t. refl) (λ v t e. (h.online v t e, h.connections_distinct v t e))

-- User `u` without the connection `p`.
abbrev pub released : ℕ → ℕ → (ℕ → User) → ℕ → User
released u p user_at =
    update user_at u (record (user_at u) { connections = erase p (user_at u).connections })

no_connection : (xs : List ℕ) (q : ℕ) → ltb 0 (length xs) ≡ false → contains xs q ≡ false
unfolding contains
no_connection [] q e = refl
no_connection (x ∷ xs) q e = absurd (ground arith)

module _ (s : Store) (h : Conns s) (p u : ℕ)
    (registered : lookup s.clients (s.client_at p).conn_id ≡ some p)
    (found : lookup s.sessions (s.client_at p).user ≡ some u) where
  -- The user has other connections.
  pub released-Conns :
      has_connections (released u p s.user_at u) ≡ true
      → Conns (without p s.sessions (released u p s.user_at) s)
  released-Conns more =
      without-Conns s h p registered s.sessions (released u p s.user_at)
        (λ v q. ground (
          arith,
          contains-erase p q (s.user_at u).connections,
          h.attached v p,
          h.session_named v u,
          h.session_named (s.client_at p).user u,
        ))
        (λ v t e. e) (λ t. ground arith)
        (λ v t e. (
          ground (arith, h.online v t, more),
          ground (arith, h.connections_distinct v t, erase-Distinct p (s.user_at t).connections),
        ))

  -- It was the last one, and the session ends.
  pub ended-Conns :
      has_connections (released u p s.user_at u) ≡ false
      → Conns (without p (delete (s.client_at p).user s.sessions) (released u p s.user_at) s)
  unfolding contains
  ended-Conns last =
      without-Conns s h p registered (delete (s.client_at p).user s.sessions)
        (released u p s.user_at)
        (λ v q. ground (
          arith,
          contains-erase p q (s.user_at u).connections,
          h.attached v p,
          h.session_named v u,
          h.session_named (s.client_at p).user u,
          lookup-delete (s.client_at p).user v s.sessions,
          no_connection (erase p (s.user_at u).connections) q,
          text_beq_iff (s.client_at p).user v,
        ))
        (λ v t e. ground (arith, lookup-delete (s.client_at p).user v s.sessions))
        (λ t. ground arith)
        (λ v t e. (
          ground (
            arith,
            h.online v t,
            h.session_named v t,
            h.session_named (s.client_at p).user u,
            lookup-delete (s.client_at p).user v s.sessions,
            text_beq_iff (s.client_at p).user v,
          ),
          ground (
            arith,
            h.connections_distinct v t,
            lookup-delete (s.client_at p).user v s.sessions,
            erase-Distinct p (s.user_at t).connections,
          ),
        ))

-- Fewer connections of a user change nothing in the memberships.
pub released-Rooms :
    (dir : Text → Option ℕ) (s : Store) (u p : ℕ) (sessions : List (Text × ℕ))
    → Rooms dir s
    → Rooms dir (without p sessions (released u p s.user_at) s)
released-Rooms dir s u p sessions r = record {
  dir_named = λ v t e. ground (arith, r.dir_named v t);
  dir_old = r.dir_old;
  channels_distinct = λ v t e. ground (arith, r.channels_distinct v t);
  room_named = r.room_named;
  room_old = r.room_old;
  members_distinct = r.members_distinct;
  synced = λ n v. ground (arith, r.synced n v);
}
