-- ===== src/DataCheck/Environment.antt =====
-- What the data check script (go-indexer/scripts/data-check.go) does before it checks: loadEnvConfig and
-- setUpConnections. An error of these ends it with code 1.
use vault_indexer.Prelude.{
  [], Text, ℕ, ◌++◌, Bool, Result, ok, err, ◌>>=◌, wrap, text, eq_text, if◌then◌else◌,
}
use vault_indexer.DataCheck.Script.{Driver, Database, Exit, fatal, data_check}

pub record EnvConfig : Type 0 where
  pub ethereum_websocket_url : Text
  pub local_pg_connection_string : Text
  pub remote_pg_connection_string : Text

-- What the script calls: the working directory, whether a file exists, godotenv, which leads to another
-- environment, the variables of one, and `filepath.Join`.
pub record System : Type 0 where
  pub getwd : Result Text
  pub exists : Text → Bool
  pub load_env : Text → Result (Text → Text)
  pub getenv : Text → Text
  pub join : Text → Text → Text

abbrev env_file : Text
env_file = text ".env.scripts"

-- `.env.scripts` is loaded if it exists.
abbrev environment : System → Text → Result (Text → Text)
environment system path =
    if system.exists path
    then wrap (text "failed to load .env file: ") (system.load_env path)
    else ok system.getenv

abbrev required : (Text → Text) → Text → Result Text
required getenv name =
    if eq_text (getenv name) []
    then err (name ++ text " environment variable is required")
    else ok (getenv name)

unfoldable pub load_env_config : System → Result EnvConfig
load_env_config system = do
  script_dir ← wrap (text "failed to get current directory: ") system.getwd
  getenv ← environment system (system.join script_dir env_file)
  url ← required getenv (text "ETHEREUM_WEBSOCKET_URL")
  local ← required getenv (text "LOCAL_PG_CONNECTION_STRING")
  remote ← required getenv (text "REMOTE_PG_CONNECTION_STRING")
  ok (record {
    ethereum_websocket_url = url;
    local_pg_connection_string = local;
    remote_pg_connection_string = remote;
  })

module _ (driver : Driver) where
  -- `ethclient.Dial`, with the answer to BlockNumber of its client, and `sql.Open`.
  pub record Network : Type 0 where
    pub dial : Text → Result (Result ℕ)
    pub open_database : Text → Result (Database driver)

  unfoldable pub set_up_connections :
      Network → EnvConfig → Result (Result ℕ × Database driver × Database driver)
  set_up_connections network cfg = do
    head ← network.dial cfg.ethereum_websocket_url
    local ← network.open_database cfg.local_pg_connection_string
    remote ← network.open_database cfg.remote_pg_connection_string
    ok (head, local, remote)

  abbrev pub checked : Result (Result ℕ × Database driver × Database driver) → Exit
  checked (err e) = fatal e
  checked (ok (head, local, remote)) = data_check driver local remote head

  -- The whole script.
  unfoldable pub script : System → Network → Exit
  script system network = checked (load_env_config system >>= set_up_connections network)
