-- ===== src/Server/Online.antt =====
-- Who is logged in, and the sessions: the connections of a session are those on which its user is
-- logged in, and a member of a channel has one.
use room_chat.Prelude.{
  ℕ, ◌≡◌, ◌∙◌, sym, ap, subst, refl, true, false, ◌&&◌, Option, none, some, Text, List, [], ◌∷◌,
  text_eq, nat_eq, nat_beq, nat_beq_iff, ltb, length, arith, Option-cases, Bool-cases, inl, inr,
}
use room_chat.Prelude.Sets.{contains, erase, contains-erase}
use room_chat.Prelude.Maps.{lookup}
use room_chat.User.{has_connections}
use room_chat.Store.{Store}
use room_chat.Server.Invariant.{Conns, IsValid, connections_of, is_attached, is_member}
use room_chat.Server.Steps.Detach.{released}
use room_chat.Server.Keeps.Clients.{is_last, is_last_lem}
use room_chat.Server.Chat.{who, is_at}

-- Somebody is logged in under the name.
abbrev pub Online : (ℕ → Option Text) → Text → Type 0
Online view w = (q : ℕ) × (view q ≡ some w)

pub attached-who :
    (s : Store) (w : Text) (p : ℕ) → Conns s → is_attached s w p ≡ true → who s p ≡ some w
attached-who s w p h e =
    let (known, name) = h.attached w p e in
    let yes_in : (s.client_at p).authenticated ≡ true =
      h.logged_in (s.client_at p).conn_id p known ∙ rw name e in
    rw (known, yes_in, name) (ground (arith, nat_beq_iff p p))

at_some : (o : Option ℕ) (p : ℕ) → is_at o p ≡ true → o ≡ some p
at_some none p e = absurd (cc)
at_some (some q) p e = ap some ((nat_beq_iff q p).0 e)

-- Who is logged in on a connection that the registry has.
pub who-parts :
    (s : Store) (w : Text) (p : ℕ)
    → who s p ≡ some w
    → (lookup s.clients (s.client_at p).conn_id ≡ some p)
      × ((s.client_at p).authenticated ≡ true)
      × ((s.client_at p).user ≡ w)
who-parts s w p e =
    elim (Bool-cases
      (is_at (lookup s.clients (s.client_at p).conn_id) p && (s.client_at p).authenticated)) [
        | inl both ↦ (
          at_some (lookup s.clients (s.client_at p).conn_id) p (ground arith),
          ground arith,
          ground arith,
        )
        | inr neither ↦ absurd (ground arith)
      ]

pub who-attached :
    (s : Store) (w : Text) (p : ℕ) → Conns s → who s p ≡ some w → is_attached s w p ≡ true
who-attached s w p h e =
    let (known, yes_in, name) = who-parts s w p e in
    subst (λ v. is_attached s v p ≡ true) name
      (sym (h.logged_in (s.client_at p).conn_id p known) ∙ yes_in)

first_of : (xs : List ℕ) → ltb 0 (length xs) ≡ true → (q : ℕ) × (contains xs q ≡ true)
unfolding contains
first_of [] e = absurd (ground (arith, e))
first_of (x ∷ xs) e = (x, ground (arith, nat_beq_iff x x))

-- Every member of a channel is logged in on some connection.
pub member-Online : (s : Store) (n w : Text) → IsValid s → is_member s n w ≡ true → Online (who s) w
unfolding contains
member-Online s n w v e = elim (Option-cases (lookup s.sessions w)) [
  | inl offline ↦ absurd (ground (arith, offline, v.rooms.synced n w))
  | inr (u, online) ↦
      let (q, found) = first_of (s.user_at u).connections (v.conns.online w u online) in
      (q, attached-who s w q v.conns (rw (online, connections_of) found))
]

nobody_left : (xs : List ℕ) (q : ℕ) → ltb 0 (length xs) ≡ false → contains xs q ≡ false
unfolding contains
nobody_left [] q e = refl
nobody_left (x ∷ xs) q e = absurd (ground arith)

-- The last connection of a user has no other one beside it.
pub last-alone :
    (s : Store) (p q : ℕ)
    → Conns s
    → is_last s p ≡ true
    → nat_beq p q ≡ false
    → is_attached s (s.client_at p).user q ≡ false
unfolding contains
last-alone s p q h last other = elim (Option-cases (lookup s.sessions (s.client_at p).user)) [
  | inl offline ↦ rw (offline, connections_of) refl
  | inr (u, online) ↦ elim (Bool-cases (has_connections (released u p s.user_at u))) [
    | inl more ↦ absurd (cc (last, is_last_lem s p u true online more))
    | inr alone ↦
        rw (online, connections_of)
          (ground (
            arith,
            contains-erase p q (s.user_at u).connections,
            nobody_left (erase p (s.user_at u).connections) q,
          ))
  ]
]
