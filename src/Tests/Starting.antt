-- ===== src/Tests/Starting.antt =====
-- The start of the program with libraries that all succeed.
use room_chat.Prelude.{none, text, [], inr}
use room_chat.Config.{Config}
use room_chat.Startup.{Libraries}

abbrev some_config : Config
some_config = record {
  server = record { port = 8080; allowed_origins = [] };
  logging = record { level = text "info" };
  database = record {
    host = text "db";
    port = 5432;
    user = text "chat";
    password = text "secret";
    db_name = text "chat";
    ssl_mode = text "disable";
  };
  grpc = record { host = text "localhost"; port = 9090 };
  elasticsearch = record {
    host = text "es";
    port = 9200;
    index = text "messages";
    user = [];
    password = [];
  };
}

abbrev libraries : Libraries
libraries = record {
  Data = Unit {0};
  Pool = Unit {0};
  EsClient = Unit {0};
  Listener = Unit {0};
  read_file = λ path. inr tt;
  unmarshal = λ d. inr some_config;
  open_db = λ name. inr tt;
  ping = λ pool. none;
  new_client = λ address user password. inr tt;
  listen = λ address. inr tt;
  serve = λ listener. none;
}
