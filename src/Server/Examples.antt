-- ===== src/Server/Examples.antt =====
-- The theorems on the server's settings, where the environment sets the slave and the mode, and the
-- command line the number of PV channels.
use sofar_hyd_diag.Prelude.{
  ◌≡◌, refl, Bool, String, Option, none, some, if◌then◌else◌, utf8, parse_decimal,
  parse_decimal_from,
}
use text.Mathlib.Text.{◌==◌ as same_text}
use sofar_hyd_diag.Register.Format.{ℤ, pos}
use sofar_hyd_diag.Server.{
  number_value, FlagSet, default_flags, set_flag, env_map, apply_env_overrides, refused,
  bad_slave_id, start,
}

abbrev parsed : String → ℤ
parsed val = pos (parse_decimal (utf8 val))

abbrev env : String → Option String
env name =
    if same_text name "SLAVE_ID"
    then some "17"
    else if same_text name "MODBUS_MODE"
    then some "rtu"
    else if same_text name "PV_CHANNELS"
    then some "9"
    else none

abbrev explicitly : String → Bool
explicitly name = same_text name "pv-channels"

-- `-pv-channels 4`.
abbrev from_command_line : FlagSet
from_command_line = set_flag parsed "pv-channels" "4" default_flags

abbrev settings : FlagSet
settings = apply_env_overrides parsed env explicitly env_map from_command_line

slave_kept : settings "slave" ≡ some (number_value (pos 17))
unfolding apply_env_overrides parse_decimal_from
slave_kept = refl

channels_kept : settings "pv-channels" ≡ some (number_value (pos 4))
unfolding apply_env_overrides parse_decimal_from
channels_kept = refl

-- A slave that is no number is stored as 0.
wrong_slave :
    start (set_flag (λ val. pos 0) "slave" "seven" default_flags) ≡ refused (bad_slave_id (pos 0))
unfolding start set_flag
wrong_slave = refl
