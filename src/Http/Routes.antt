-- ===== src/Http/Routes.antt =====
-- internal/server/server.go, Start: the routes of the HTTP server, with the middleware before two
-- of them. The upgrade to a WebSocket is the library's, but for the test of the origin.
use room_chat.Prelude.{ℕ, Option, Text}
use room_chat.Protocol.{CreateUserRequest, UpdateUserRequest}
use room_chat.Users.{Repository, Bcrypt}
use room_chat.Elastic.Documents.{QueryClient}
use room_chat.Store.{Exec, pure, ◌>>=◌}
use room_chat.Http.{
  Writer, empty_writer, handle_register, handle_update, basic_auth, handle_list_messages,
}

-- A request for one of the routes other than that of the WebSocket: what net/http makes of the
-- header Authorization, and the decoded body or the parameters.
pub data HttpRequest : Type 0 where
  post_register : Option CreateUserRequest → HttpRequest
  put_profile : Option (Text × Text) → Option UpdateUserRequest → HttpRequest
  get_messages : Option (Text × Text) → Text → Text → HttpRequest

-- `salt` is what bcrypt draws.
module _ (repo : Repository) (bcrypt : Bcrypt) (client : QueryClient) (salt : ℕ)
    (db : repo.Db) where
  abbrev pub with_same_db : Writer → Writer × repo.Db
  with_same_db w = (w, db)

  abbrev pub listed : Exec Writer → Exec (Writer × repo.Db)
  listed m = do w ← m; pure (with_same_db w)

  unfoldable pub serve_http : HttpRequest → Exec (Writer × repo.Db)
  serve_http (post_register req) = pure (handle_register repo bcrypt salt req db empty_writer)
  serve_http (put_profile auth req) = pure (
      basic_auth repo bcrypt auth db (λ context w. handle_update repo bcrypt context req db w)
        with_same_db empty_writer)
  serve_http (get_messages auth channel author_id) =
      basic_auth repo bcrypt auth db
        (λ context w. listed (handle_list_messages client context channel author_id w))
        (λ w. pure (with_same_db w)) empty_writer
