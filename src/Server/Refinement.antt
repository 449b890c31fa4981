-- ===== src/Server/Refinement.antt =====
-- The server's event loop against the view of `Chat`.
use room_chat.Prelude.{
  ◌≡◌, ◌∙◌, sym, subst, refl, Bool, not, ◌&&◌, ◌||◌, Text, text_beq, text_eq, Option-cases, inl,
  inr,
}
use room_chat.Prelude.Maps.{lookup}
use room_chat.Protocol.{Message, MessageAction, join, leave, text_message, login}
use room_chat.Users.{Repository, Bcrypt}
use room_chat.Elastic.{SearchClient}
use room_chat.Store.{Store, Outcome, done, panicked, waits, free}
use room_chat.Server.Membership.{handle_join_channel, handle_leave_channel}
use room_chat.Server.Clients
use room_chat.Server.Clients.{insert_client}
use room_chat.Server.Run.{
  Event, registered, unregistered, dispatched, dispatch_action, handle_message, handle_event,
}
use room_chat.Server.Invariant.{IsValid, is_member}
use room_chat.Server.Steps.Valid.{
  Returns, with_mu, HasRoom, IsSound, IsSound-IsValid, IsValid-IsSound,
}
use room_chat.Server.Keeps.LoggingIn.{FindsByName, handle_login-IsValid}
use room_chat.Server.Keeps.Sending.{handle_send_message-IsValid}
use room_chat.Server.Keeps.Joining.{handle_join_channel-Enters}
use room_chat.Server.Keeps.Leaving.{handle_leave_channel-Exits}
use room_chat.Server.Keeps.Clients.{remove_client-Goes, add_client-IsValid}
use room_chat.Server.Effects.{Ends, Allows}
use room_chat.Server.Effects.Sends.{handle_send_message-Ends}
use room_chat.Server.Effects.Logins.{handle_login-Ends}
use room_chat.Server.Events.{TokenIsWhole, IsReady}
use room_chat.Server.Chat.{moved_by, moved, Becomes, who_after, Follows}
use room_chat.Server.Who.{Sees, handle_event-Sees}

-- The channels, and who is in them, are the same.
abbrev Quiet : Store → Store → Type 0
Quiet s t = (t.rooms ≡ s.rooms) × (t.channel_at ≡ s.channel_at)

Quiet-Allows : Allows Quiet
Quiet-Allows = record {
  same = λ s. (refl, refl);
  trans = λ s t u st tu. (tu.0 ∙ st.0, tu.1 ∙ st.1);
  queued = λ p x s room. (refl, refl);
  locked = λ l s. (refl, refl);
}

Quiet-Becomes : (s t : Store) → IsValid t → Quiet s t → Becomes (is_member s) t
Quiet-Becomes s t v (rooms, channels) = (v, λ n w. rw (rooms, channels))

-- A run that is done, and stays quiet, changes no membership.
Returns-Quiet :
    (s : Store) (o : Outcome (Unit {0}))
    → Returns o IsValid
    → Ends o (Quiet s)
    → Returns o (Becomes (is_member s))
Returns-Quiet s (done a t) v q = Quiet-Becomes s t v q.at
Returns-Quiet s (panicked e) v q = v
Returns-Quiet s (waits w) v q = v

Returns-Becomes :
    (o : Outcome (Unit {0})) (f g : Text → Text → Bool)
    → ((n w : Text) → f n w ≡ g n w)
    → Returns o (Becomes f)
    → Returns o (Becomes g)
Returns-Becomes (done a t) f g same (v, view) = (v, λ n w. view n w ∙ same n w)
Returns-Becomes (panicked e) f g same r = r
Returns-Becomes (waits w) f g same r = r

Returns-Follows :
    (repo : Repository) (bcrypt : Bcrypt) (db : repo.Db) (s : Store) (e : Event)
    (o : Outcome (Unit {0}))
    → Returns o (Becomes (moved s e))
    → Ends o (Sees (who_after repo bcrypt db s e))
    → Returns o (Follows repo bcrypt db s e)
Returns-Follows repo bcrypt db s e (done a t) r h = (r, h.at.at)
Returns-Follows repo bcrypt db s e (panicked x) r h = r
Returns-Follows repo bcrypt db s e (waits x) r h = r

module _ (m : Message) (s : Store) (h : IsSound s) (room : HasRoom s m.client_id) where
  join-Becomes : Returns (handle_join_channel m (with_mu free s)) (Becomes (moved_by s join m))
  unfolding handle_join_channel
  join-Becomes = elim (Option-cases (lookup s.sessions m.user)) [
    | inl offline ↦
        Returns-Becomes _ (is_member s) _ (λ n w. rw offline)
          (rw offline (IsSound-IsValid h, λ n w. refl))
    | inr (u, online) ↦ elim (Option-cases (lookup s.clients m.client_id)) [
      | inl unknown ↦
          Returns-Becomes _ (is_member s) _ (λ n w. rw (online, unknown))
            (rw online (rw unknown (IsSound-IsValid h, λ n w. refl)))
      | inr (p, known) ↦
          Returns-Becomes _ (λ n w. text_beq m.channel n && text_beq m.user w || is_member s n w) _
            (λ n w. rw (online, known)) (handle_join_channel-Enters m s u p h room online known)
    ]
  ]

  leave-Becomes : Returns (handle_leave_channel m (with_mu free s)) (Becomes (moved_by s leave m))
  unfolding handle_leave_channel
  leave-Becomes = elim (Option-cases (lookup s.clients m.client_id)) [
    | inl unknown ↦
        Returns-Becomes _ (is_member s) _ (λ n w. rw unknown)
          (rw unknown (IsSound-IsValid h, λ n w. refl))
    | inr (p, known) ↦
        Returns-Becomes _
          (λ n w. not (text_beq m.channel n && text_beq (s.client_at p).user w) && is_member s n w)
          _ (λ n w. rw known) (handle_leave_channel-Exits m s p h room known)
  ]

module _ (repo : Repository) (bcrypt : Bcrypt) (search : SearchClient) (law : FindsByName repo)
    (db : repo.Db) where
  dispatch_action-Becomes :
      (act : MessageAction) (m : Message) (s : Store)
      → IsSound s
      → HasRoom s m.client_id
      → TokenIsWhole act m
      → Returns
          (dispatch_action repo bcrypt search db act m (with_mu free s))
          (Becomes (moved_by s act m))
  unfolding dispatch_action
  dispatch_action-Becomes join m s h room whole = join-Becomes m s h room
  dispatch_action-Becomes leave m s h room whole = leave-Becomes m s h room
  dispatch_action-Becomes text_message m s h room whole =
      Returns-Quiet s _ (handle_send_message-IsValid search m s h room)
        (handle_send_message-Ends Quiet-Allows search m (with_mu free s))
  dispatch_action-Becomes login m s h room whole =
      Returns-Quiet s _ (handle_login-IsValid repo bcrypt db m s law whole h room) (
        handle_login-Ends Quiet-Allows (λ f n sessions t. (refl, refl)) (λ f t. (refl, refl)) repo
          bcrypt db m (with_mu free s))
  dispatch_action-Becomes _ m s h room whole = (IsSound-IsValid h, λ n w. refl)

  event-Becomes :
      (e : Event) (s : Store)
      → IsSound s
      → IsReady s e
      → Returns (handle_event repo bcrypt search db e (with_mu free s)) (Becomes (moved s e))
  unfolding handle_event handle_message Clients.add_client insert_client
  event-Becomes (registered p) s h ready = (add_client-IsValid p s h ready, λ n w. refl)
  event-Becomes (unregistered p) s h ready = remove_client-Goes p s h ready
  event-Becomes (dispatched m) s h ready = dispatch_action-Becomes m.action m s h ready.0 ready.1

  -- If the repository finds users by their name: from a valid store every event that is ready is
  -- handled to its end, leaves a valid store, and changes what the view of the chat says, and
  -- nothing else of it. Memberships: a join request of a registered connection, for a user who is
  -- online, adds that user to that channel, a leave request takes the user of the connection out of
  -- the channel, and a connection that goes takes its user out of all channels if it was the last.
  -- Logins: a login with credentials that are accepted logs the connection in, if it was not logged
  -- in, and a connection that goes is logged in no more.
  pub handle_event-Follows :
      (e : Event) (s : Store)
      → IsValid s
      → IsReady s e
      → Returns (handle_event repo bcrypt search db e s) (Follows repo bcrypt db s e)
  handle_event-Follows e s v ready =
      subst
        (λ l.
          Returns (handle_event repo bcrypt search db e (with_mu l s)) (Follows repo bcrypt db s e))
        (sym v.unlocked)
        (Returns-Follows repo bcrypt db s e _ (event-Becomes e s (IsValid-IsSound v) ready)
          (handle_event-Sees repo bcrypt search db s (IsValid-IsSound v) e ready))
