-- ===== src/Server/Steps/Attach.antt =====
-- A client logs in: it gets its user's name, and the user's session gets the client.
use room_chat.Prelude.{
  ℕ, suc, ◌≡◌, ◌∙◌, true, false, some, none, Text, List, [], text_eq, nat_eq, text_beq_iff, ltb,
  length, arith, ◌||◌, ◌&&◌, ==-self, text_beq, nat_beq,
}
use room_chat.Prelude.Sets.{contains, insert, contains-insert, insert-Distinct, pos_of_contains}
use room_chat.Prelude.Maps
use room_chat.Prelude.Maps.{lookup, update, lookup-insert}
use room_chat.User.{Profile, new_user}
use room_chat.Store.{Store}
use room_chat.Server.Invariant.{Conns, Rooms, is_attached, session}

-- `insert` leaves no empty set.
pos_of_insert : (p : ℕ) (xs : List ℕ) → ltb 0 (length (insert p xs)) ≡ true
pos_of_insert p xs =
    pos_of_contains (insert p xs) p (contains-insert p p xs ∙ rw (==-self {A = ℕ} p))

-- The user `u` is online already.
abbrev pub attached_to : ℕ → ℕ → Text → Store → Store
attached_to u p w s = record s {
  client_at = update s.client_at p (record (s.client_at p) { user = w; authenticated = true });
  user_at =
      update s.user_at u
        (record (s.user_at u) { connections = insert p (s.user_at u).connections });
}

module _ (s : Store) (h : Conns s) (p : ℕ) (id w : Text) (registered : lookup s.clients id ≡ some p)
    (fresh : (s.client_at p).authenticated ≡ false) where
  -- Only that client is attached besides, to that user.
  attached_to_lem :
      (u : ℕ)
      → lookup s.sessions w ≡ some u
      → (v : Text) (q : ℕ)
      → is_attached (attached_to u p w s) v q ≡ (text_beq w v && nat_beq p q || is_attached s v q)
  attached_to_lem u found v q = ground (
    arith,
    contains-insert p q (s.user_at u).connections,
    h.session_named v u,
    h.session_named w u,
    text_beq_iff w v,
  )

  pub attached_to-Conns : (u : ℕ) → lookup s.sessions w ≡ some u → Conns (attached_to u p w s)
  attached_to-Conns u found = record {
    client_named = λ i q e. ground (arith, h.client_named i q);
    open_queue = h.open_queue;
    session_named = λ v t e. ground (arith, h.session_named v t);
    session_old = h.session_old;
    online = λ v t e. ground (arith, h.online v t, pos_of_insert p (s.user_at u).connections);
    connections_distinct = λ v t e.
        ground (arith, h.connections_distinct v t, insert-Distinct p (s.user_at u).connections);
    attached = λ v q e. ground (
      arith,
      attached_to_lem u found v q,
      h.attached v q,
      h.logged_in id p,
      h.client_named id p,
      text_beq_iff w v,
    );
    logged_in = λ i q e. ground (
      arith,
      attached_to_lem u found w q,
      attached_to_lem u found (s.client_at q).user q,
      h.logged_in i q,
      text_beq_iff w w,
    );
  }

-- The user is not online yet: a session begins.
abbrev pub opened_session : Text → Profile → Store → Store
opened_session w profile s = record s {
  user_at = update s.user_at s.next_user (new_user profile);
  next_user = suc s.next_user;
  sessions = Maps.insert w s.next_user s.sessions;
}

abbrev pub started : ℕ → Text → Profile → Store → Store
started p w profile s = attached_to s.next_user p w (opened_session w profile s)

module _ (s : Store) (h : Conns s) (p : ℕ) (w : Text) (profile : Profile)
    (absent : lookup s.sessions w ≡ none) where
  started_lem :
      (v : Text) (q : ℕ)
      → is_attached (started p w profile s) v q ≡ (text_beq w v && nat_beq p q || is_attached s v q)
  unfolding new_user contains
  started_lem v q = ground (
    arith,
    contains-insert p q [],
    lookup-insert w v s.next_user s.sessions,
    h.session_old v s.next_user,
    text_beq_iff w v,
  )

  pub started-Conns :
      (id : Text)
      → lookup s.clients id ≡ some p
      → (s.client_at p).authenticated ≡ false
      → profile.username ≡ w
      → Conns (started p w profile s)
  unfolding new_user
  started-Conns id registered fresh named = record {
    client_named = λ i q e. ground (arith, h.client_named i q);
    open_queue = h.open_queue;
    session_named = λ v t e. ground (
      arith,
      h.session_named v t,
      h.session_old v t,
      text_beq_iff w v,
      lookup-insert w v s.next_user s.sessions,
    );
    session_old =
        λ v t e. ground (arith, h.session_old v t, lookup-insert w v s.next_user s.sessions);
    online = λ v t e. ground (
      arith,
      h.online v t,
      h.session_old v t,
      pos_of_insert p [],
      lookup-insert w v s.next_user s.sessions,
    );
    connections_distinct = λ v t e. ground (
      arith,
      h.connections_distinct v t,
      h.session_old v t,
      insert-Distinct p [],
      lookup-insert w v s.next_user s.sessions,
    );
    attached = λ v q e. ground (
      arith,
      started_lem v q,
      h.attached v q,
      h.logged_in id p,
      h.client_named id p,
      text_beq_iff w v,
    );
    logged_in = λ i q e. ground (
      arith,
      started_lem w q,
      started_lem (s.client_at q).user q,
      h.logged_in i q,
      text_beq_iff w w,
    );
  }

  pub started-Rooms :
      profile.username ≡ w
      → Rooms (session s) s
      → Rooms (session (started p w profile s)) (started p w profile s)
  unfolding new_user contains
  started-Rooms named r = record {
    dir_named = λ v t e. ground (
      arith,
      r.dir_named v t,
      h.session_old v t,
      text_beq_iff w v,
      lookup-insert w v s.next_user s.sessions,
    );
    dir_old = λ v t e. ground (arith, h.session_old v t, lookup-insert w v s.next_user s.sessions);
    channels_distinct = λ v t e. ground (
      arith,
      r.channels_distinct v t,
      h.session_old v t,
      lookup-insert w v s.next_user s.sessions,
    );
    room_named = r.room_named;
    room_old = r.room_old;
    members_distinct = r.members_distinct;
    synced = λ n v. ground (
      arith,
      r.synced n v,
      lookup-insert w v s.next_user s.sessions,
      text_beq_iff w v,
      h.session_old v s.next_user,
    );
  }

-- More connections of a user change nothing in the memberships.
pub attached_to-Rooms :
    (s : Store) (u p : ℕ) (w : Text) → Rooms (session s) s → Rooms (session s) (attached_to u p w s)
attached_to-Rooms s u p w r = record {
  dir_named = λ v t e. ground (arith, r.dir_named v t);
  dir_old = r.dir_old;
  channels_distinct = λ v t e. ground (arith, r.channels_distinct v t);
  room_named = r.room_named;
  room_old = r.room_old;
  members_distinct = r.members_distinct;
  synced = λ n v. ground (arith, r.synced n v);
}
