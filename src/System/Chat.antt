-- ===== src/System/Chat.antt =====
-- What the server promises its users: a chat of who is logged in on which connection and who is a
-- member of which channel, with no store, no registry, no queue and no goroutine.
use room_chat.Prelude.{
  ℕ, ◌≡◌, ◌↔◌, Bool, true, false, not, ◌&&◌, ◌||◌, Option, none, some, Text, text_beq, nat_beq,
  if◌then◌else◌,
}
use room_chat.Server.Online.{Online}

pub record Chat : Type 0 where
  pub logins : ℕ → Option Text
  pub member : Text → Text → Bool

-- The empty chat.
abbrev pub nobody : Chat
nobody = record { logins = λ p. none; member = λ n w. false }

abbrev pub SameLogins : Chat → Chat → Type 0
SameLogins c d = (q : ℕ) → d.logins q ≡ c.logins q

abbrev pub SameMembers : Chat → Chat → Type 0
SameMembers c d = (n w : Text) → d.member n w ≡ c.member n w

-- `logs_in`: a connection on which nobody is logged in. `joins`, `leaves`: the user of a
-- connection, and no other one. `goes`: a connection ends, and its user stays in the channels
-- exactly as long as another one is logged in under the name.
pub data Moves (c d : Chat) : Type 0 where
  silent : SameLogins c d → SameMembers c d → Moves c d
  logs_in :
      (p : ℕ) (name : Text)
      → c.logins p ≡ none
      → ((q : ℕ) → d.logins q ≡ (if nat_beq p q then some name else c.logins q))
      → SameMembers c d
      → Moves c d
  joins :
      (p : ℕ) (name channel : Text)
      → c.logins p ≡ some name
      → SameLogins c d
      → ((n w : Text) → d.member n w ≡ (text_beq channel n && text_beq name w || c.member n w))
      → Moves c d
  leaves :
      (p : ℕ) (name channel : Text)
      → c.logins p ≡ some name
      → SameLogins c d
      → ((n w : Text)
          → d.member n w ≡ (not (text_beq channel n && text_beq name w) && c.member n w))
      → Moves c d
  goes :
      (p : ℕ)
      → ((q : ℕ) → d.logins q ≡ (if nat_beq p q then none else c.logins q))
      → ((n w : Text) → (d.member n w ≡ true) ↔ ((c.member n w ≡ true) × Online d.logins w))
      → Moves c d

pub data Talks (c : Chat) : Chat → Type 0 where
  start : Talks c c
  step : {d e : Chat} → Talks c d → Moves d e → Talks c e
