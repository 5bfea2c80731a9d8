-- ===== src/Server.antt =====
-- cmd/server/main.go: the settings of the server from its flags and the environment, and what it
-- starts with them; and of web/handler.go what /status, /api/status and /api/defaults answer.
--
-- A FlagSet is the registered flags with their values, as flag.Parse leaves them; `explicitly` is
-- what flag.Visit walks over. What the flag package stores for a text that is meant for a number is
-- the parameter `parse_int`: it stores a number even where it reports an error, which
-- applyEnvOverrides drops.
pub mod Settings
mod Examples
use sofar_hyd_diag.Prelude.{
  ℕ, suc, Bool, true, false, not, ◌&&◌, ◌||◌, String, Option, none, some, List, [], ◌∷◌, ltb,
  if◌then◌else◌, decimal, str_append,
}
use text.Mathlib.Text.{◌==◌ as same_text}
use sofar_hyd_diag.Register.Format.{ℤ, pos, negsuc}
use sofar_hyd_diag.Broker.State.{Broker, state_string}
use sofar_hyd_diag.Broker.Execute.{new}
use sofar_hyd_diag.Hub.State.{Hub}
use sofar_hyd_diag.Hub.Commands.{byte_of}
use sofar_hyd_diag.Hub.Run.{new_hub}

pub data FlagValue : Type 0 where
  text_value : String → FlagValue
  number_value : ℤ → FlagValue

abbrev pub FlagSet : Type 0
FlagSet = String → Option FlagValue

-- The flags as they are declared.
abbrev pub default_flags : FlagSet
default_flags name =
    if same_text name "listen"
    then some (text_value ":8080")
    else if same_text name "inverter-host"
    then some (text_value "10.5.99.29")
    else if same_text name "inverter-port"
    then some (number_value (pos 4192))
    else if same_text name "slave"
    then some (number_value (pos 1))
    else if same_text name "modbus-mode"
    then some (text_value "tcp")
    else if same_text name "pv-channels"
    then some (number_value (pos 2))
    else if same_text name "log-level"
    then some (text_value "info")
    else none

-- `Value.Set` of the flag package.
unfoldable pub set_value : (String → ℤ) → String → FlagValue → FlagValue
set_value parse_int val (text_value _) = text_value val
set_value parse_int val (number_value _) = number_value (parse_int val)

-- `flag.Set`, which does nothing for a name that no flag has.
unfoldable pub set_flag : (String → ℤ) → String → String → FlagSet → FlagSet
unfolding set_value
set_flag parse_int name val fs n =
    if same_text n name
    then elim (fs n) [ none ↦ none | some v ↦ some (set_value parse_int val v) ]
    else fs n

-- The name of a flag, and that of its variable.
abbrev pub EnvMap : Type 0
EnvMap = List (String × String)

abbrev pub env_map : EnvMap
env_map =
    ("listen", "LISTEN_ADDR")
    ∷ ("inverter-host", "INVERTER_HOST")
    ∷ ("inverter-port", "INVERTER_PORT")
    ∷ ("slave", "SLAVE_ID")
    ∷ ("modbus-mode", "MODBUS_MODE")
    ∷ ("pv-channels", "PV_CHANNELS")
    ∷ ("log-level", "LOG_LEVEL")
    ∷ []

module _ (parse_int : String → ℤ) (env : String → Option String) (explicitly : String → Bool) where
  unfoldable pub override : String → String → FlagSet → FlagSet
  unfolding set_flag
  override flag_name env_name fs =
      if explicitly flag_name
      then fs
      else elim (env env_name) [ none ↦ fs | some val ↦ set_flag parse_int flag_name val fs ]

  -- The loop of `applyEnvOverrides`, over the map in some order.
  unfoldable pub apply_env_overrides : EnvMap → FlagSet → FlagSet
  unfolding override
  apply_env_overrides [] fs = fs
  apply_env_overrides (p ∷ ps) fs = apply_env_overrides ps (override p.0 p.1 fs)

-- `*slaveID` and the like.
abbrev pub text_at : String → FlagSet → String
text_at name fs = elim (fs name) [ some (text_value t) ↦ t | _ ↦ "" ]

abbrev pub number_at : String → FlagSet → ℤ
number_at name fs = elim (fs name) [ some (number_value z) ↦ z | _ ↦ pos 0 ]

-- `n < low || n > high`.
unfoldable pub outside : ℕ → ℕ → ℤ → Bool
outside low high (pos n) = ltb n low || ltb high n
outside low high (negsuc n) = true

-- The messages before os.Exit(1), with what they print.
pub data Refusal : Type 0 where
  bad_slave_id bad_pv_channels : ℤ → Refusal
  bad_modbus_mode : String → Refusal

pub record DefaultsConfig : Type 0 where
  pub host : String
  pub port : ℤ
  pub slave_id : ℤ
  pub pv_channels : ℤ

-- What main starts: the broker, the hub and the routes.
pub record Server : Type 0 where
  pub broker : Broker
  pub hub : Hub
  pub defaults : DefaultsConfig
  pub listen_addr : String

pub data Startup : Type 0 where
  refused : Refusal → Startup
  serving : Server → Startup

abbrev pub integer_string : ℤ → String
integer_string (pos n) = decimal n
integer_string (negsuc n) = str_append "-" (decimal (suc n))

-- `"%s:%d"`.
unfoldable pub inverter_addr : FlagSet → String
unfolding decimal
inverter_addr fs =
    str_append (text_at "inverter-host" fs)
      (str_append ":" (integer_string (number_at "inverter-port" fs)))

abbrev pub defaults_of : FlagSet → DefaultsConfig
defaults_of fs = record {
  host = text_at "inverter-host" fs;
  port = number_at "inverter-port" fs;
  slave_id = number_at "slave" fs;
  pv_channels = number_at "pv-channels" fs;
}

unfoldable pub assembled : FlagSet → Server
unfolding inverter_addr new new_hub
assembled fs =
    let slave = number_at "slave" fs in
    let channels = number_at "pv-channels" fs in
    record {
      broker = new (inverter_addr fs) (byte_of slave) (same_text (text_at "modbus-mode" fs) "rtu");
      hub = new_hub channels;
      defaults = defaults_of fs;
      listen_addr = text_at "listen" fs;
    }

-- `main` from its checks on.
unfoldable pub start : FlagSet → Startup
unfolding outside assembled
start fs =
    let mode = text_at "modbus-mode" fs in
    if outside 1 247 (number_at "slave" fs)
    then refused (bad_slave_id (number_at "slave" fs))
    else if not (same_text mode "tcp") && not (same_text mode "rtu")
    then refused (bad_modbus_mode mode)
    else if outside 2 16 (number_at "pv-channels" fs)
    then refused (bad_pv_channels (number_at "pv-channels" fs))
    else serving (assembled fs)

pub record StatusInfo : Type 0 where
  pub status : String
  pub version : String
  pub uptime : String
  pub broker : String

pub record StatusResponse : Type 0 where
  pub uptime : String
  pub connection_state : String
  pub inverter_addr : String

-- The handler of /status, at some time since the start.
unfoldable pub status_info : String → String → Broker → StatusInfo
status_info version uptime b = record {
  status = "ok";
  version = version;
  uptime = uptime;
  broker = state_string b.state;
}

-- The handler of /api/status.
unfoldable pub status_response : String → Broker → StatusResponse
status_response uptime b = record {
  uptime = uptime;
  connection_state = state_string b.state;
  inverter_addr = b.addr;
}
