-- ===== src/Server/Run.antt =====
-- internal/server/server.go, Run and handleMessage: one event of the three Go channels that the
-- goroutine selects from.
use room_chat.Prelude.{ℕ}
use room_chat.Protocol.{Message, MessageAction, join, leave, text_message, login}
use room_chat.Elastic.{SearchClient}
use room_chat.Store.{Exec, pure}
use room_chat.Users.{Repository, Bcrypt}
use room_chat.Server.Login.{handle_login}
use room_chat.Server.Membership.{handle_join_channel, handle_leave_channel}
use room_chat.Server.Messages.{handle_send_message}
use room_chat.Server.Clients.{add_client, remove_client}

pub data Event : Type 0 where
  registered unregistered : ℕ → Event
  dispatched : Message → Event

-- The database as it stands when the event is taken.
module _ (repo : Repository) (bcrypt : Bcrypt) (search : SearchClient) (db : repo.Db) where
  unfoldable pub dispatch_action : MessageAction → Message → Exec (Unit {0})
  dispatch_action join m = handle_join_channel m
  dispatch_action leave m = handle_leave_channel m
  dispatch_action text_message m = handle_send_message search m
  dispatch_action login m = handle_login repo bcrypt db m
  dispatch_action _ m = pure tt

  unfoldable pub handle_message : Message → Exec (Unit {0})
  unfolding dispatch_action
  handle_message m = dispatch_action m.action m

  unfoldable pub handle_event : Event → Exec (Unit {0})
  unfolding handle_message
  handle_event (registered p) = add_client p
  handle_event (unregistered p) = remove_client p
  handle_event (dispatched m) = handle_message m
