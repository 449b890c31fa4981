-- ===== src/System/Invariant.antt =====
-- What holds between two steps of the goroutines.
use room_chat.Prelude.{ℕ, ◌≡◌, ◌⊎◌, refl, inl, inr, true, false, some, Text, text_eq}
use room_chat.Prelude.Maps.{lookup}
use room_chat.Protocol.{Message, MessageAction}
use room_chat.Store.{Store}
use room_chat.Server.Invariant.{IsValid}
use room_chat.System.{System, Phase, Hand, waiting, sending, handling, is_made, is_live}

-- The message that a connection's reader hands on bears the connection's identifier, and is a login
-- or comes from the user who is logged in on the connection.
abbrev pub Owns : Store → ℕ → Message → Type 0
Owns s p m =
    (m.client_id ≡ (s.client_at p).conn_id)
    × ((m.action ≡ MessageAction.login)
        ⊎ (((s.client_at p).authenticated ≡ true) × (m.user ≡ (s.client_at p).user)))

-- The store is valid, a connection that waits to be registered is new, the registry holds exactly
-- the live connections, identifiers are unique, and every message on its way has its owner.
pub record Holds (s : Store) (phase : ℕ → Phase) (run : Hand) : Type 0 where
  pub valid : IsValid s
  pub fresh :
      (p : ℕ)
      → phase p ≡ waiting
      → ((s.queue_at p).closed ≡ false) × ((s.client_at p).authenticated ≡ false)
  pub live : (p : ℕ) → is_live (phase p) ≡ true → lookup s.clients (s.client_at p).conn_id ≡ some p
  pub known : (id : Text) (p : ℕ) → lookup s.clients id ≡ some p → is_live (phase p) ≡ true
  pub apart :
      (p q : ℕ)
      → is_made (phase p) ≡ true
      → is_made (phase q) ≡ true
      → (s.client_at p).conn_id ≡ (s.client_at q).conn_id
      → p ≡ q
  pub own : (p : ℕ) (m : Message) → phase p ≡ sending m → Owns s p m
  pub taken : (p : ℕ) (m : Message) → run ≡ handling p m → (is_live (phase p) ≡ true) × Owns s p m

abbrev pub Inv : System → Type 0
Inv x = Holds x.store x.phase x.run

-- A message that a reader hands on, or that `Run` has received and handles.
abbrev pub IsOnItsWay : System → ℕ → Message → Type 0
IsOnItsWay x p m = (x.phase p ≡ sending m) ⊎ (x.run ≡ handling p m)

pub way-live :
    (x : System) (p : ℕ) (m : Message) → Inv x → IsOnItsWay x p m → is_live (x.phase p) ≡ true
way-live x p m h (inl at_send) = rw at_send refl
way-live x p m h (inr at_run) = (h.taken p m at_run).0

pub way-Owns : (x : System) (p : ℕ) (m : Message) → Inv x → IsOnItsWay x p m → Owns x.store p m
way-Owns x p m h (inl at_send) = h.own p m at_send
way-Owns x p m h (inr at_run) = (h.taken p m at_run).1
