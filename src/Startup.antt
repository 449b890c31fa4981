-- ===== src/Startup.antt =====
-- main.go, internal/postgres/postgres.go (NewPostgresConnection), Start of internal/server/grpc.go,
-- and the address of Start of internal/server/server.go: what the program does until it serves.
--
-- The file, the database driver, the search client and the sockets are parameters; each call gives
-- what it makes, or the text of an error. `srv.Run` and `srv.Start` go on beside this goroutine.
pub mod Endings
use room_chat.Prelude.{
  ℕ, zero, suc, ◌+◌, ◌/◌, ◌%◌, ltb, Option, none, some, List, [], ◌∷◌, ◌++◌, Text, text,
  if◌then◌else◌, ◌⊎◌, inl, inr,
}
use room_chat.Config.{Config, DatabaseConfig, GrpcConfig, ElasticsearchConfig, ServerConfig, load}

-- The verb %d for a number that is not negative. Each round cuts off a digit, so a number needs no
-- more rounds than itself and one.
decimal_in : ℕ → ℕ → Text
decimal_in zero n = []
decimal_in (suc rounds) n =
    let rest = decimal_in rounds (n / 10) in
    if ltb n 10 then (n + b'0') ∷ [] else rest ++ (n % 10 + b'0') ∷ []

pub decimal : ℕ → Text
unfolding decimal_in
decimal n = decimal_in (suc n) n

-- Config of the package postgres, as setupApp fills it.
pub record PostgresConfig : Type 0 where
  pub host : Text
  pub port : ℕ
  pub user : Text
  pub password : Text
  pub db_name : Text
  pub ssl_mode : Text

abbrev pub postgres_config : DatabaseConfig → PostgresConfig
postgres_config c = record {
  host = c.host;
  port = c.port;
  user = c.user;
  password = c.password;
  db_name = c.db_name;
  ssl_mode = c.ssl_mode;
}

pub dsn : PostgresConfig → Text
dsn c =
    text "host="
    ++ (c.host
        ++ (text " port="
            ++ (decimal c.port
                ++ (text " user="
                    ++ (c.user
                        ++ (text " password="
                            ++ (c.password
                                ++ (text " dbname="
                                    ++ (c.db_name ++ (text " sslmode=" ++ c.ssl_mode))))))))))

-- The addresses of the three servers.
abbrev pub es_address : ElasticsearchConfig → Text
es_address c = text "http://" ++ c.host ++ text ":" ++ decimal c.port

abbrev pub http_address : ServerConfig → Text
http_address c = text ":" ++ decimal c.port

abbrev pub grpc_address : GrpcConfig → Text
grpc_address c = c.host ++ text ":" ++ decimal c.port

pub record Libraries : Type 1 where
  pub Data : Type 0
  pub Pool : Type 0
  pub EsClient : Type 0
  pub Listener : Type 0
  pub read_file : Text → Text ⊎ Data
  pub unmarshal : Data → Text ⊎ Config
  pub open_db : Text → Text ⊎ Pool
  pub ping : Pool → Option Text
  pub new_client : Text → Text → Text → Text ⊎ EsClient
  pub listen : Text → Text ⊎ Listener
  pub serve : Listener → Option Text

-- What the goroutine of main does that others can see.
pub data Act : Type 0 where
  opened_db : Text → Act
  closed_db started_run : Act
  started_http listened : Text → Act

-- log.Fatalf and os.Exit(1) end the process at once; `returns` is the end of main.
pub data Ending : Type 0 where
  fatal : Text → Ending
  exit_1 returns : Ending

module _ (l : Libraries) where
  ping_db : l.Pool → Option Text → Text ⊎ l.Pool
  ping_db pool none = inr pool
  ping_db pool (some e) = inl (text "cannot ping db: " ++ e)

  open_db : Text → Text ⊎ l.Pool → List Act × (Text ⊎ l.Pool)
  unfolding ping_db
  open_db name (inl e) = ([], inl (text "cannot open db: " ++ e))
  open_db name (inr pool) = (opened_db name ∷ [], ping_db pool (l.ping pool))

  -- The pool has at most 10 connections, 5 of them idle, each for an hour at most; the ping waits
  -- for five seconds at most.
  pub new_postgres_connection : PostgresConfig → List Act × (Text ⊎ l.Pool)
  unfolding open_db
  new_postgres_connection c = open_db (dsn c) (l.open_db (dsn c))

  -- Start of the gRPC server: `none` where it was stopped in good order.
  grpc_serve : Option Text → Option Text
  grpc_serve none = none
  grpc_serve (some e) = some (text "failed to start gRPC server: " ++ e)

  grpc_start : Text → Text ⊎ l.Listener → List Act × Option Text
  unfolding grpc_serve
  grpc_start address (inl e) = ([], some (text "failed to listen: " ++ e))
  grpc_start address (inr listener) = (listened address ∷ [], grpc_serve (l.serve listener))

  -- The end of setupApp. The deferred db.Close runs only where setupApp returns.
  finish : Option Text → List Act × Ending
  finish none = (closed_db ∷ [], returns)
  finish (some e) = ([], exit_1)

  with_client : Config → Text ⊎ l.EsClient → List Act × Ending
  unfolding grpc_start finish
  with_client cfg (inl e) = ([], fatal (text "Failed to create Elasticsearch client: " ++ e))
  with_client cfg (inr client) =
      let (acts, failed) = grpc_start (grpc_address cfg.grpc) (l.listen (grpc_address cfg.grpc)) in
      let (more, ending) = finish failed in
      (started_run ∷ started_http (http_address cfg.server) ∷ (acts ++ more), ending)

  with_db : Config → Text ⊎ l.Pool → List Act × Ending
  unfolding with_client
  with_db cfg (inl e) = ([], fatal (text "Failed to connect to database: " ++ e))
  with_db cfg (inr pool) = with_client cfg (
      l.new_client (es_address cfg.elasticsearch) cfg.elasticsearch.user cfg.elasticsearch.password)

  with_config : Text ⊎ Config → List Act × Ending
  unfolding with_db new_postgres_connection
  with_config (inl e) = ([], fatal (text "Failed to load config: " ++ e))
  with_config (inr cfg) =
      let (acts, connection) = new_postgres_connection (postgres_config cfg.database) in
      let (more, ending) = with_db cfg connection in (acts ++ more, ending)

  pub setup_app : List Act × Ending
  unfolding with_config
  setup_app = with_config (load l.read_file l.unmarshal (text "config.json"))
