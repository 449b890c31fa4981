-- ===== src/System/Moves.antt =====
-- What the steps of the goroutines are for the chat of `Chat`.
use room_chat.Prelude.{
  ℕ, ◌≡◌, ◌⊎◌, ◌∙◌, ◌↔◌, refl, true, false, not, ◌&&◌, Option, none, some, Text, text_eq, nat_eq,
  nat_beq, nat_beq_iff, text_beq, text_beq_iff, arith, ap, sym, subst, Bool-cases, Option-cases,
  inl, inr, if◌then◌else◌,
}
use room_chat.Prelude.Maps.{lookup}
use room_chat.Protocol.{Message, MessageAction, join, leave, login}
use room_chat.Connection.{new_client}
use room_chat.Users.{Repository, Bcrypt}
use room_chat.Store.{Store}
use room_chat.Server.Invariant.{IsValid, is_member, is_attached}
use room_chat.Server.Keeps.Clients.{is_last}
use room_chat.Server.Chat.{who, moved_by, who_dispatched, or_else}
use room_chat.Server.Logins.{accepted_name}
use room_chat.Server.Online.{Online, member-Online, who-parts, who-attached, last-alone}
use room_chat.System.{System, absent, is_live, connect}
use room_chat.System.Invariant.{Inv}
use room_chat.System.Handling.{NamesOnline}
use room_chat.System.Chat.{Chat, nobody, SameMembers, Moves, silent, logs_in, joins, leaves}

abbrev pub chat_of : Store → Chat
chat_of s = record { logins = who s; member = is_member s }

-- Nobody is logged in on a connection that is not live.
nobody-who : (x : System) (p : ℕ) → Inv x → is_live (x.phase p) ≡ false → who x.store p ≡ none
nobody-who x p h dead = elim (Option-cases (who x.store p)) [
  | inl e ↦ e
  | inr (w, e) ↦
      absurd (cc (dead, h.known (x.store.client_at p).conn_id p (who-parts x.store w p e).0))
]

connect-who_self :
    (x : System) (p : ℕ) (uuid : Text)
    → Inv x
    → x.phase p ≡ absent
    → who (connect p uuid x.store) p ≡ who x.store p
unfolding new_client
connect-who_self x p uuid h nobody =
    ground (arith, nobody-who x p h (rw nobody refl), nat_beq_iff p p)

pub connect-who :
    (x : System) (p : ℕ) (uuid : Text)
    → Inv x
    → x.phase p ≡ absent
    → (q : ℕ) → who (connect p uuid x.store) q ≡ who x.store q
connect-who x p uuid h nobody q = elim (Bool-cases (nat_beq p q)) [
  | inl same ↦
      subst (λ r. who (connect p uuid x.store) r ≡ who x.store r) ((nat_beq_iff p q).0 same)
        (connect-who_self x p uuid h nobody)
  | inr other ↦ rw other refl
]

module _ (s t : Store) (p : ℕ) (v : IsValid s) (u : IsValid t)
    (views : (q : ℕ) → who t q ≡ (if nat_beq p q then none else who s q)) where
  other_login : (w : Text) (q : ℕ) → who t q ≡ some w → (nat_beq p q ≡ false) × (who s q ≡ some w)
  other_login w q on = elim (Bool-cases (nat_beq p q)) [
    | inl same ↦ absurd (ground (arith, views q))
    | inr other ↦ (other, ground (arith, views q))
  ]

  -- Where the user is still logged in, this was not the last connection.
  not_last :
      (w : Text) → Online (who t) w → (is_last s p && text_beq (s.client_at p).user w) ≡ false
  not_last w (q, on) = elim (Bool-cases (is_last s p && text_beq (s.client_at p).user w)) [
    | inr more ↦ more
    | inl both ↦
        let (other, was) = other_login w q on in
        let name : (s.client_at p).user ≡ w = ground (arith, text_beq_iff (s.client_at p).user w) in
        let last : is_last s p ≡ true = ground arith in
        let attached : is_attached s (s.client_at p).user q ≡ true =
          who-attached s (s.client_at p).user q v.conns (was ∙ ap some (sym name)) in
        absurd (cc (attached, last-alone s p q v.conns last other))
  ]

  -- The last connection of a user goes with the memberships, another one does not.
  pub goes-members :
      ((n w : Text)
        → is_member t n w
          ≡ (not (is_last s p && text_beq (s.client_at p).user w) && is_member s n w))
      → (n w : Text) → (is_member t n w ≡ true) ↔ ((is_member s n w ≡ true) × Online (who t) w)
  goes-members members n w = (
    λ e. (ground (arith, e, members n w), member-Online t n w u e),
    λ both. members n w ∙ rw (not_last w both.1) both.0,
  )

kept :
    (s : Store) (p : ℕ) (o : Option Text)
    → who s p ≡ o
    → (q : ℕ) → (if nat_beq p q then o else who s q) ≡ who s q
kept s p o e q = elim (Bool-cases (nat_beq p q)) [
  | inl same ↦ rw same (subst (λ r. o ≡ who s r) ((nat_beq_iff p q).0 same) (sym e))
  | inr other ↦ rw other refl
]

-- A login that is accepted.
login-Moves :
    (s t : Store) (p : ℕ) (name before : Option Text)
    → who s p ≡ before
    → ((q : ℕ) → who t q ≡ (if nat_beq p q then or_else before name else who s q))
    → SameMembers (chat_of s) (chat_of t)
    → Moves (chat_of s) (chat_of t)
login-Moves s t p name (some w) e views same = silent (λ q. views q ∙ kept s p (some w) e q) same
login-Moves s t p none none e views same = silent (λ q. views q ∙ kept s p none e q) same
login-Moves s t p (some w) none e views same = logs_in p w e views same

pub live-who :
    (s : Store) (p : ℕ)
    → lookup s.clients (s.client_at p).conn_id ≡ some p
    → (s.client_at p).authenticated ≡ true
    → who s p ≡ some (s.client_at p).user
live-who s p known yes_in = ground (arith, known, yes_in, nat_beq_iff p p)

module _ (repo : Repository) (bcrypt : Bcrypt) (db : repo.Db) (s t : Store) (p : ℕ) (m : Message)
    (registered : lookup s.clients (s.client_at p).conn_id ≡ some p)
    (known : lookup s.clients m.client_id ≡ some p) where
  -- A message of the user who is logged in on the connection, or a login.
  pub message-Moves :
      (act : MessageAction)
      → NamesOnline s act m.user
      → (act ≡ login) ⊎ (((s.client_at p).authenticated ≡ true) × (m.user ≡ (s.client_at p).user))
      → ((n w : Text) → is_member t n w ≡ moved_by s act m n w)
      → ((q : ℕ) → who t q ≡ who_dispatched repo bcrypt db s act m q)
      → Moves (chat_of s) (chat_of t)
  message-Moves join (inl other) owned members views = absurd (cc)
  message-Moves join named (inl other) members views = absurd (cc)
  message-Moves join (inr (u, online)) (inr (yes_in, name)) members views =
      joins p m.user m.channel (live-who s p registered yes_in ∙ ap some (sym name)) views
        (λ n w. members n w ∙ rw (online, known) refl)
  message-Moves leave named (inl other) members views = absurd (cc)
  message-Moves leave named (inr (yes_in, name)) members views =
      leaves p (s.client_at p).user m.channel (live-who s p registered yes_in) views
        (λ n w. members n w ∙ rw known refl)
  message-Moves login named owned members views =
      login-Moves s t p (accepted_name repo bcrypt db m.request.token) (who s p) refl
        (λ q. views q ∙ rw known refl) members
  message-Moves _ named owned members views = silent views members

pub same-Moves : (s t : Store) → s ≡ t → Moves (chat_of s) (chat_of t)
same-Moves s t e = silent (λ q. rw e refl) (λ n w. rw e refl)
