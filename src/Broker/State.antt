-- ===== src/Broker/State.antt =====
-- internal/broker/state.go and the data of broker.go: the broker's state, its commands, and what
-- the world around the run loop answers.
use sofar_hyd_diag.Prelude.{
  ℕ, Bool, true, false, String, Option, none, some, List, ◌∷◌, ◌≡◌, refl, ◌⊎◌, inl, inr,
}
use text.Mathlib.Text.{find?}
use sofar_hyd_diag.Broker.Backoff.{Backoff}
use sofar_hyd_diag.Modbus.Conn.{Conn}
use sofar_hyd_diag.Modbus.Error.{ModbusError, error_text}

pub data State : Type 0 where
  dormant disconnected connecting connected reconnecting : State

abbrev pub state_string : State → String
state_string dormant = "dormant"
state_string disconnected = "disconnected"
state_string connecting = "connecting"
state_string connected = "connected"
state_string reconnecting = "reconnecting"

pub data BrokerError : Type 0 where
  broker_is_dormant exhausted_retries broker_closed : BrokerError
  context_error dial_error : String → BrokerError
  modbus_error : ModbusError → BrokerError

pub record StateEvent : Type 0 where
  pub state : State
  pub err : Option BrokerError

pub record ReadRequest : Type 0 where
  pub addr : ℕ
  pub count : ℕ

pub record WriteRequest : Type 0 where
  pub addr : ℕ
  pub value : ℕ

-- `Result`: `fails e` has a nil Data, `data_bytes` a nil Err.
pub data Result : Type 0 where
  data_bytes : List ℕ → Result
  fails : BrokerError → Result

pub data Command : Type 0 where
  cmd_read : ReadRequest → Command
  cmd_write : WriteRequest → Command
  cmd_read_batch : List ReadRequest → Command
  cmd_reconfigure : String → ℕ → Command
  cmd_disconnect : Command
  cmd_set_delay : ℕ → Command

-- What the broker does that the world can see, in the order in which it happens.
pub data Action : Type 0 where
  dialed : String → Action
  closed_conn : Action
  read_sent : ReadRequest → Action
  write_sent : WriteRequest → Action
  waited : ℕ → Action  -- between attempts to connect
  slept : ℕ → Action  -- between reads
  state_set : State → Action
  checked_context loaded_abort : Action

pub data Dialed : Type 0 where
  dial_ok : Conn → Dialed
  dial_err : String → Dialed

pub Dialed-cases : (d : Dialed) → ((c : Conn) × (d ≡ dial_ok c)) ⊎ ((e : String) × (d ≡ dial_err e))
Dialed-cases (dial_ok c) = inl (c, refl)
Dialed-cases (dial_err e) = inr (e, refl)

-- The world answers from what has happened so far, newest first. Nothing is assumed of it.
pub record World : Type 0 where
  pub dial : List Action → String → Dialed
  pub peer : List Action → Conn → Conn  -- what the gateway sends and when the socket fails
  pub rounds : List Action → ℕ  -- TCP responses read before the deadline
  pub cancelled : List Action → Option String  -- `ctx.Err()`, once the context is done
  pub now : List Action → ℕ
  pub event_room : List Action → Bool  -- whether stateCh takes an event without blocking
  pub abort_requested : List Action → Bool  -- `abortRead` was called meanwhile

-- `conn` is none for nil, and `last_read_time` for the zero time. `transaction_id` is the counter of
-- package modbus. `state_events` holds what stateCh was given.
pub record Broker : Type 0 where
  pub addr : String
  pub slave_id : ℕ
  pub use_rtu : Bool
  pub conn : Option Conn
  pub aborting : Bool
  pub state : State
  pub state_events : List StateEvent
  pub backoff : Backoff
  pub inter_read_delay : ℕ
  pub last_read_time : Option ℕ
  pub dormant : Bool
  pub transaction_id : ℕ  -- uint32
  pub trace : List Action

abbrev pub act : Action → Broker → Broker
act a b = record b { trace = a ∷ b.trace }

-- `strings.Contains(err.Error(), "err=0x02")`, negated.
unfoldable pub is_retryable : ModbusError → Bool
unfolding error_text
is_retryable e = elim (find? (error_text e) "err=0x02") [ some _ ↦ false | none ↦ true ]
