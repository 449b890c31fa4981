-- ===== src/Server/Keeps/Clients.antt =====
-- addClient and removeClient.
use room_chat.Prelude.{
  ℕ, ◌≡◌, ◌∙◌, refl, sym, Bool, true, false, some, none, Text, text_eq, nat_eq, text_beq,
  text_beq_iff, arith, subst, Option-cases, Bool-cases, inl, inr, ==-self, not, ◌&&◌,
}
use room_chat.Prelude.Sets.{contains}
use room_chat.Prelude.Maps.{lookup, delete, lookup-delete}
use room_chat.User.{username, has_connections, remove_client}
use room_chat.Store.{Store, free, done, close}
use room_chat.Sessions.{remove_client_from_user, session_remove}
use room_chat.Server.Clients.{
  add_client, insert_client, drop_client, delete_client, detach_client, leave_each,
  remove_user_from_all_channels,
}
use room_chat.Server.Clients
use room_chat.Server.Invariant.{Rooms, IsValid, session, is_member}
use room_chat.Server.Steps.Frame.{Rooms-frame}
use room_chat.Server.Steps.Detach.{
  IsNew, insert_client-Conns, without, without_session-Conns, released, released-Conns, ended-Conns,
  released-Rooms,
}
use room_chat.Server.Steps.Valid.{
  Returns, Returns-IsValid, with_mu, IsSound, IsSoundFor, IsSound-IsValid,
}
use room_chat.Server.Keeps.Departing.{leave_each_lem, Rooms-without}

-- Registering a new client keeps the invariant.
pub add_client-IsValid :
    (p : ℕ) (s : Store) → IsSound s → IsNew s p → Returns (add_client p (with_mu free s)) IsValid
unfolding add_client insert_client
add_client-IsValid p s h new = IsSound-IsValid (record {
  conns = unfold insert_client in insert_client-Conns s p new h.conns;
  rooms = Rooms-frame s.client_at s.queue_at _ s.sessions s.mu h.rooms;
  populated = h.populated;
})

remove_client_more :
    (w : Text) (p u : ℕ) (s : Store)
    → lookup s.sessions w ≡ some u
    → has_connections (released u p s.user_at u) ≡ true
    → remove_client_from_user w p s ≡ done tt (record s { user_at = released u p s.user_at })
unfolding remove_client_from_user remove_client
remove_client_more w p u s found more = ground arith

remove_client_last :
    (w : Text) (p u : ℕ) (s : Store)
    → lookup s.sessions w ≡ some u
    → has_connections (released u p s.user_at u) ≡ false
    → remove_client_from_user w p s
      ≡ done tt (record s { user_at = released u p s.user_at; sessions = delete w s.sessions })
unfolding remove_client_from_user remove_client session_remove
remove_client_last w p u s found last = ground arith

-- Whether `p` is the only connection of its user who is online.
abbrev pub is_last : Store → ℕ → Bool
is_last s p = elim (lookup s.sessions (s.client_at p).user) [
  | none ↦ false
  | some u ↦ not (has_connections (released u p s.user_at u))
]

pub is_last_lem :
    (s : Store) (p u : ℕ) (b : Bool)
    → lookup s.sessions (s.client_at p).user ≡ some u
    → has_connections (released u p s.user_at u) ≡ b
    → is_last s p ≡ not b
is_last_lem s p u b found e = ground arith

-- The channels of a user are those that have the user as a member.
gone_view :
    (s : Store) (u : ℕ) (w n v : Text)
    → Rooms (session s) s
    → lookup s.sessions w ≡ some u
    → (not (text_beq w v && contains (s.user_at u).channels n) && is_member s n v)
      ≡ (not (text_beq w v) && is_member s n v)
gone_view s u w n v r found = ground (arith, r.synced n v, text_beq_iff w v)

-- What removing `p` leaves: a valid store, and the members as before, but for the user of `p` in
-- every channel if that was the user's last connection.
abbrev pub Goes : ℕ → Store → Store → Type 0
Goes p s t =
    IsValid t
    × ((n w : Text)
        → is_member t n w
          ≡ (not (is_last s p && text_beq (s.client_at p).user w) && is_member s n w))

module _ (p : ℕ) (s : Store) (h : IsSound s)
    (registered : lookup s.clients (s.client_at p).conn_id ≡ some p) where
  -- The part under the lock closes the queue, which is open.
  pub drop_client_lem :
      drop_client p (with_mu free s) ≡ done tt (with_mu free (without p s.sessions s.user_at s))
  unfolding drop_client delete_client close
  drop_client_lem = rw (registered, h.conns.open_queue (s.client_at p).conn_id p registered)

  -- The last connection is gone: the session ends, and the user leaves every channel.
  ended-Returns :
      (u : ℕ)
      → lookup s.sessions (s.client_at p).user ≡ some u
      → has_connections (released u p s.user_at u) ≡ false
      → Returns
          (remove_user_from_all_channels u (
            with_mu free
              (without p (delete (s.client_at p).user s.sessions) (released u p s.user_at) s)))
          (Goes p s)
  unfolding remove_user_from_all_channels
  ended-Returns u found last =
      let w = (s.client_at p).user in
      let s' = without p (delete w s.sessions) (released u p s.user_at) s in
      let sound : IsSoundFor (session s) s' = record {
        conns = ended-Conns s h.conns p u registered found last;
        rooms = released-Rooms (session s) s u p (delete w s.sessions) h.rooms;
        populated = h.populated;
      } in
      let (t, e, (sound', left, same, view)) =
        leave_each_lem (session s) u (username (s.user_at u)) (s.user_at u).channels s' sound
          (rw (h.conns.session_named w u found) found) (h.rooms.channels_distinct w u found)
          (λ n. rw (==-self {A = ℕ} u)) in
      rw (==-self {A = ℕ} u, e)
        (
          IsSound-IsValid (record {
            conns = sound'.conns;
            rooms =
                Rooms-without (session s) t u w sound'.rooms found left
                  λ v. rw same (lookup-delete w v s.sessions);
            populated = sound'.populated;
          }),
          λ n v.
              subst (λ b. is_member t n v ≡ (not (b && text_beq w v) && is_member s n v))
                (sym (is_last_lem s p u false found last))
                (view n v
                  ∙ rw (h.conns.session_named w u found) (gone_view s u w n v h.rooms found)),
        )

  detach_client-Returns :
      Returns
        (detach_client (s.client_at p).user p (with_mu free (without p s.sessions s.user_at s)))
        (Goes p s)
  unfolding detach_client
  detach_client-Returns = elim (Option-cases (lookup s.sessions (s.client_at p).user)) [
    | inl absent ↦ rw absent (
      IsSound-IsValid (record {
        conns = without_session-Conns s h.conns p registered absent;
        rooms = Rooms-frame s.client_at _ _ s.sessions s.mu h.rooms;
        populated = h.populated;
      }),
      λ n v. rw (absent, is_last),
    )
    | inr (u, found) ↦ rw found (elim (Bool-cases (has_connections (released u p s.user_at u))) [
      | inl more ↦
          rw
            (remove_client_more (s.client_at p).user p u
              (with_mu free (without p s.sessions s.user_at s)) found more)
            (rw more (
              IsSound-IsValid (record {
                conns = released-Conns s h.conns p u registered found more;
                rooms = released-Rooms (session s) s u p s.sessions h.rooms;
                populated = h.populated;
              }),
              λ n v.
                  subst
                    (λ b.
                      is_member s n v
                      ≡ (not (b && text_beq (s.client_at p).user v) && is_member s n v))
                    (sym (is_last_lem s p u true found more)) refl,
            ))
      | inr last ↦
          rw
            (remove_client_last (s.client_at p).user p u
              (with_mu free (without p s.sessions s.user_at s)) found last)
            (rw last (ended-Returns u found last))
    ])
  ]

-- Removing a registered client is done to its end and leaves a valid store, and the members of
-- every channel are as before, but that the user of the client, if this was the user's last
-- connection, is a member of no channel any more.
pub remove_client-Goes :
    (p : ℕ) (s : Store)
    → IsSound s
    → lookup s.clients (s.client_at p).conn_id ≡ some p
    → Returns (Clients.remove_client p (with_mu free s)) (Goes p s)
unfolding Clients.remove_client
remove_client-Goes p s h registered =
    rw (drop_client_lem p s h registered) (detach_client-Returns p s h registered)

-- It keeps the invariant.
pub remove_client-IsValid :
    (p : ℕ) (s : Store)
    → IsSound s
    → lookup s.clients (s.client_at p).conn_id ≡ some p
    → Returns (Clients.remove_client p (with_mu free s)) IsValid
remove_client-IsValid p s h registered = Returns-IsValid _ _ (remove_client-Goes p s h registered)
