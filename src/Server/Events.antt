-- ===== src/Server/Events.antt =====
-- The life of the server: the events of `Run`, interleaved with the goroutines that read from and
-- write to the connections.
use room_chat.Prelude.{◌≡◌, some, text_eq, nat_eq, subst, sym}
use room_chat.Prelude.Maps.{lookup}
use room_chat.Protocol.{Message, MessageAction, join, leave, text_message, login}
use room_chat.Users.{Repository, Bcrypt}
use room_chat.Elastic.{SearchClient}
use room_chat.Store.{Store, free}
use room_chat.Server.Run.{
  Event, registered, unregistered, dispatched, dispatch_action, handle_message, handle_event,
}
use room_chat.Server.Invariant.{IsValid}
use room_chat.Server.Steps.Detach.{IsNew}
use room_chat.Server.Steps.Valid.{
  Returns, with_mu, HasRoom, IsSound, IsValid-IsSound, IsSound-IsValid,
}
use room_chat.Server.Keeps.LoggingIn.{FindsByName, HasWholeToken, handle_login-IsValid}
use room_chat.Server.Keeps.Joining.{handle_join_channel-IsValid}
use room_chat.Server.Keeps.Leaving.{handle_leave_channel-IsValid}
use room_chat.Server.Keeps.Sending.{handle_send_message-IsValid}
use room_chat.Server.Keeps.Clients.{add_client-IsValid, remove_client-IsValid}

abbrev pub TokenIsWhole : MessageAction → Message → Type 0
TokenIsWhole login m = HasWholeToken m
TokenIsWhole _ m = Unit {0}

-- What the other goroutines see to, and, for a message, that its sender's queue has room and its
-- token, if it is a login, is no shorter than the prefix.
abbrev pub IsReady : Store → Event → Type 0
IsReady s (registered p) = IsNew s p
IsReady s (unregistered p) = lookup s.clients (s.client_at p).conn_id ≡ some p
IsReady s (dispatched m) = HasRoom s m.client_id × TokenIsWhole m.action m

module _ (repo : Repository) (bcrypt : Bcrypt) (search : SearchClient) (db : repo.Db)
    (law : FindsByName repo) where
  dispatch_action-Returns :
      (a : MessageAction) (m : Message) (s : Store)
      → IsSound s
      → HasRoom s m.client_id
      → TokenIsWhole a m
      → Returns (dispatch_action repo bcrypt search db a m (with_mu free s)) IsValid
  unfolding dispatch_action
  dispatch_action-Returns join m s h room whole = handle_join_channel-IsValid m s h room
  dispatch_action-Returns leave m s h room whole = handle_leave_channel-IsValid m s h room
  dispatch_action-Returns text_message m s h room whole =
      handle_send_message-IsValid search m s h room
  dispatch_action-Returns login m s h room whole =
      handle_login-IsValid repo bcrypt db m s law whole h room
  dispatch_action-Returns _ m s h room whole = IsSound-IsValid h

  handle_event-Returns :
      (e : Event) (s : Store)
      → IsSound s
      → IsReady s e
      → Returns (handle_event repo bcrypt search db e (with_mu free s)) IsValid
  unfolding handle_event handle_message
  handle_event-Returns (registered p) s h ready = add_client-IsValid p s h ready
  handle_event-Returns (unregistered p) s h ready = remove_client-IsValid p s h ready
  handle_event-Returns (dispatched m) s h ready =
      dispatch_action-Returns m.action m s h ready.0 ready.1

  -- If the repository finds users by their name: from a valid store the goroutine of `Run` handles
  -- every event that is ready to its end: it does not panic, block on its lock or wait for a queue,
  -- and the store that it leaves is valid.
  pub handle_event-IsValid :
      (e : Event) (s : Store)
      → IsValid s
      → IsReady s e
      → Returns (handle_event repo bcrypt search db e s) IsValid
  handle_event-IsValid e s v ready =
      subst (λ l. Returns (handle_event repo bcrypt search db e (with_mu l s)) IsValid)
        (sym v.unlocked) (handle_event-Returns e s (IsValid-IsSound v) ready)
