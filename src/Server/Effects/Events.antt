-- ===== src/Server/Effects/Events.antt =====
-- Every event of `Run`, for a relation that respects all writes.
use room_chat.Prelude.{text_eq, nat_eq}
use room_chat.Protocol.{Message, MessageAction, join, leave, text_message, login}
use room_chat.Users.{Repository, Bcrypt}
use room_chat.Elastic.{SearchClient}
use room_chat.Store.{Store}
use room_chat.Server.Run.{
  Event, registered, unregistered, dispatched, dispatch_action, handle_message, handle_event,
}
use room_chat.Server.Effects.{
  Ends, done-Ends, Allows, AllowsUsers, AllowsChannels, AllowsLogin, AllowsRegistry, AllowsClose,
}
use room_chat.Server.Effects.Sends.{handle_send_message-Ends}
use room_chat.Server.Effects.Logins.{handle_login-Ends}
use room_chat.Server.Effects.Joins.{handle_join_channel-Ends}
use room_chat.Server.Effects.Leaves.{handle_leave_channel-Ends, remove_client-Ends, add_client-Ends}

module _ {R : Store → Store → Type 0} (a : Allows R) (users : AllowsUsers R)
    (channels : AllowsChannels R) (logs_in : AllowsLogin R) (clients : AllowsRegistry R)
    (closes : AllowsClose R) (repo : Repository) (bcrypt : Bcrypt) (search : SearchClient)
    (db : repo.Db) where
  dispatch_action-Ends :
      (act : MessageAction) (m : Message) (s : Store)
      → Ends (dispatch_action repo bcrypt search db act m s) (R s)
  unfolding dispatch_action
  dispatch_action-Ends join m s = handle_join_channel-Ends a users channels m s
  dispatch_action-Ends leave m s = handle_leave_channel-Ends a users channels m s
  dispatch_action-Ends text_message m s = handle_send_message-Ends a search m s
  dispatch_action-Ends login m s = handle_login-Ends a users logs_in repo bcrypt db m s
  dispatch_action-Ends _ m s = done-Ends (a.same s)

  pub handle_event-Ends :
      (e : Event) (s : Store) → Ends (handle_event repo bcrypt search db e s) (R s)
  unfolding handle_event handle_message
  handle_event-Ends (registered p) s = add_client-Ends a users channels clients closes p s
  handle_event-Ends (unregistered p) s = remove_client-Ends a users channels clients closes p s
  handle_event-Ends (dispatched m) s = dispatch_action-Ends m.action m s
