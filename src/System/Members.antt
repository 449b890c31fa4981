-- ===== src/System/Members.antt =====
-- The members of the channels, while the goroutines run.
use room_chat.Prelude.{ℕ, ◌≡◌, ◌⊎◌, true, false, Option, some, Text}
use room_chat.Protocol.{Message}
use room_chat.Connection.{Client, Queue}
use room_chat.User.{User}
use room_chat.Channel.{Channel}
use room_chat.Users.{Repository, Bcrypt}
use room_chat.Elastic.{SearchClient}
use room_chat.Server.Invariant.{is_member}
use room_chat.Server.Keeps.LoggingIn.{FindsByName}
use room_chat.Server.Chat.{who}
use room_chat.Server.Online.{member-Online, who-parts}
use room_chat.System.{System, new_system, is_live, Reach}
use room_chat.System.Reached.{Reach-Inv}

-- If the repository finds users by their name: whatever the goroutines of all connections have done
-- since the server started, every member of a channel is logged in on a connection that `Run` has
-- registered and not removed, and whose queue is open.
pub Reach-member :
    (repo : Repository) (bcrypt : Bcrypt) (search : SearchClient) {Frame : Type 0}
    (unmarshal : Frame → Text ⊎ Message) (validate : Message → Option Text)
    → FindsByName repo
    → (client_at : ℕ → Client) (queue_at : ℕ → Queue) (user_at : ℕ → User)
      (channel_at : ℕ → Channel) {x : System}
    → Reach repo bcrypt search unmarshal validate
        (new_system client_at queue_at user_at channel_at)
        x
    → (n w : Text) → is_member x.store n w ≡ true
    → (q : ℕ) × (who x.store q ≡ some w)
      × (is_live (x.phase q) ≡ true)
      × ((x.store.queue_at q).closed ≡ false)
Reach-member repo bcrypt search unmarshal validate law client_at queue_at user_at channel_at {x} r n
      w e =
    let h =
      Reach-Inv repo bcrypt search unmarshal validate law client_at queue_at user_at channel_at r in
    let (q, on) = member-Online x.store n w h.valid e in
    let (known, yes_in, name) = who-parts x.store w q on in
    (
      q,
      on,
      h.known (x.store.client_at q).conn_id q known,
      h.valid.conns.open_queue (x.store.client_at q).conn_id q known,
    )
