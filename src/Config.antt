-- ===== src/Config.antt =====
-- The configuration (go-indexer/config/config.go): the YAML file's contracts with their addresses in lower
-- case, and the credentials from the environment.
pub mod Lowercase
use vault_indexer.Prelude.{
  wrap, Text, ℕ, ℤ, Bool, Option, none, some, List, [], ◌∷◌, ◌++◌, map, Result, ok, err, ◌>>=◌,
  text, to_lower, eq_text, if◌then◌else◌,
}

pub record ContractConfig : Type 0 where
  pub name : Text
  pub address : Text
  pub start_block : ℕ
  pub end_block : ℕ
  pub abi_path : Text
  pub events : List Text

pub record EthereumConfig : Type 0 where
  pub websocket_url : Text
  pub chain_id : ℤ

pub record DatabaseConfig : Type 0 where
  pub supabase_url : Text
  pub supabase_key : Text
  pub postgres_connection_string : Text

pub record Config : Type 0 where
  pub ethereum : EthereumConfig
  pub contracts : List ContractConfig
  pub database : DatabaseConfig
  pub log_level : Text

-- What Load calls: the environment before and after godotenv.Load of a file, which may fail, and viper's
-- ReadInConfig and Unmarshal.
pub record Host : Type 0 where
  pub getenv : Text → Text
  pub load_env : Text → Result (Text → Text)
  pub read_in_config : Option Text
  pub unmarshal : Result Config

abbrev pub lower_address : ContractConfig → ContractConfig
lower_address c = record {
  name = c.name;
  address = to_lower c.address;
  start_block = c.start_block;
  end_block = c.end_block;
  abi_path = c.abi_path;
  events = c.events;
}

abbrev pub succeeds : Text → Option Text → Result (Unit {0})
succeeds message none = ok tt
succeeds message (some e) = err (message ++ e)

-- loadEnvFile
abbrev pub load_env_file : Host → Text → Result (Text → Text)
load_env_file host env =
    wrap (text "failed to load env file: ") (host.load_env (text ".env." ++ env))

-- What is set from the environment, and the contracts.
abbrev pub completed : (Text → Text) → Config → Config
completed getenv c = record {
  ethereum = record {
    websocket_url = getenv (text "INDEXER_ETH_RPC_WS_URL");
    chain_id = c.ethereum.chain_id;
  };
  contracts = map lower_address c.contracts;
  database = record {
    supabase_url = getenv (text "INDEXER_SUPABASE_URL");
    supabase_key = getenv (text "INDEXER_SUPABASE_ADMIN_KEY");
    postgres_connection_string = getenv (text "INDEXER_POSTGRES_CONNECTION_STRING");
  };
  log_level = getenv (text "LOG_LEVEL");
}

abbrev pub environment_name : Text → Text
environment_name env = if eq_text env [] then text "dev" else env

unfoldable pub load : Host → Result Config
load host = do
  getenv ← load_env_file host (environment_name (host.getenv (text "ENV")))
  read ← succeeds (text "failed to read config file: ") host.read_in_config
  config ← wrap (text "failed to unmarshal config: ") host.unmarshal
  ok (completed getenv config)
