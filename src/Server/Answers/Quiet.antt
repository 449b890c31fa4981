-- ===== src/Server/Answers/Quiet.antt =====
-- What the handlers do to the store without touching a queue.
use room_chat.Prelude.{
  ℕ, nat_beq, refl, Option, none, some, Text, text_eq, nat_eq, inl, inr, Bool-cases, Option-cases,
}
use room_chat.Prelude.Maps.{lookup}
use room_chat.User.{Profile}
use room_chat.Channel.{add_user, active_users_count}
use room_chat.Store.{Store, Lock, free, writing, reading, Exec, lock_from, unlock, unlock_from}
use room_chat.Sessions.{add_client_to_user, allocate_user}
use room_chat.Rooms.{
  get_or_create, allocate_channel, registry_add_user, channel_add_user, registry_delete,
}
use room_chat.Server.Membership.{cleanup_empty_channel}
use room_chat.Server.Effects.{Ends, done-Ends}
use room_chat.Server.Answers.{NoAnswer, NoAnswer-refl, then-NoAnswer}

lock_from-NoAnswer : (l : Lock) (s : Store) → Ends (lock_from l s) (NoAnswer s)
lock_from-NoAnswer free s = done-Ends (record { same = λ q r. refl })
lock_from-NoAnswer writing s = record { at = tt }
lock_from-NoAnswer (reading n) s = record { at = tt }

unlock_from-NoAnswer : (l : Lock) (s : Store) → Ends (unlock_from l s) (NoAnswer s)
unlock_from-NoAnswer writing s = done-Ends (record { same = λ q r. refl })
unlock_from-NoAnswer free s = record { at = tt }
unlock_from-NoAnswer (reading n) s = record { at = tt }

pub unlock-NoAnswer : (s : Store) → Ends (unlock s) (NoAnswer s)
unlock-NoAnswer s = unlock_from-NoAnswer s.mu s

option-NoAnswer {ℓ κ} :
    {A : Type ℓ} {X : Type κ} (o : Option X) (a : Exec A) (f : X → Exec A) (s : Store)
    → Ends (a s) (NoAnswer s)
    → ((x : X) → Ends (f x s) (NoAnswer s))
    → Ends ((elim o as (λ _. Exec A) [ none ↦ a | some x ↦ f x ]) s) (NoAnswer s)
option-NoAnswer none a f s absent present = absent
option-NoAnswer (some x) a f s absent present = present x

channel_add_user-NoAnswer :
    (c : ℕ) (w : Text) (s : Store) → Ends (channel_add_user c w s) (NoAnswer s)
unfolding channel_add_user
channel_add_user-NoAnswer c w s =
    option-NoAnswer (add_user w (s.channel_at c)) _ _ s (done-Ends (NoAnswer-refl s))
      (λ ch. done-Ends (record { same = λ q r. refl }))

pub registry_add_user-NoAnswer :
    (n w : Text) (s : Store) → Ends (registry_add_user n w s) (NoAnswer s)
unfolding registry_add_user
registry_add_user-NoAnswer n w s = elim (Option-cases (lookup s.rooms n)) [
  | inl absent ↦ rw absent (done-Ends (NoAnswer-refl s))
  | inr (c, room) ↦ rw room (channel_add_user-NoAnswer c w s)
]

pub get_or_create-NoAnswer : (n : Text) (s : Store) → Ends (get_or_create n s) (NoAnswer s)
unfolding get_or_create allocate_channel
get_or_create-NoAnswer n s = elim (Option-cases (lookup s.rooms n)) [
  | inl absent ↦ rw absent (done-Ends (record { same = λ q r. refl }))
  | inr (c, room) ↦ rw room (done-Ends (NoAnswer-refl s))
]

pub add_client_to_user-NoAnswer :
    (w : Text) (p : ℕ) (profile : Profile) (s : Store)
    → Ends (add_client_to_user w p profile s) (NoAnswer s)
unfolding add_client_to_user allocate_user
add_client_to_user-NoAnswer w p profile s = elim (Option-cases (lookup s.sessions w)) [
  | inl offline ↦ rw offline (done-Ends (record { same = λ q r. refl }))
  | inr (u, online) ↦ rw online (done-Ends (record { same = λ q r. refl }))
]

pub cleanup-NoAnswer :
    (n : Text) (c : ℕ) (s : Store) → Ends (cleanup_empty_channel n c s) (NoAnswer s)
unfolding cleanup_empty_channel registry_delete
cleanup-NoAnswer n c s = then-NoAnswer s _ _ (lock_from-NoAnswer s.mu s) λ _ t.
    then-NoAnswer t _ _
      (elim (Bool-cases (nat_beq (active_users_count (t.channel_at c)) 0)) [
        | inl empty ↦ rw empty (done-Ends (record { same = λ q r. refl }))
        | inr more ↦ rw more (done-Ends (NoAnswer-refl t))
      ])
      (λ _ u. unlock-NoAnswer u)
