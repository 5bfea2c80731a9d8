-- ===== src/Broker/Calls.antt =====
-- internal/broker/broker.go: the callers of the broker, which are other goroutines. Each public
-- method puts a command on the channel `commands` and waits for its response; the run loop takes
-- the commands one by one. What happens, in any order, is a step: a call is a number, each with a
-- response channel of its own. `abortRead` is what World.abort_requested answers.
mod Examples
pub mod Invariant
pub mod Serving
pub mod Serial
pub mod Closing
use sofar_hyd_diag.Prelude.{
  ℕ, ◌<◌, ◌≡◌, Bool, true, false, String, Option, none, some, List, [], ◌∷◌, ◌++◌, map, length,
  update,
}
use sofar_hyd_diag.Broker.State.{
  BrokerError, broker_closed, context_error, Result, data_bytes, fails, Command, cmd_read,
  cmd_write, cmd_read_batch, cmd_reconfigure, cmd_disconnect, cmd_set_delay, World, Broker,
}
use sofar_hyd_diag.Broker.Run.{Response, one, batch, execute, cleanup}

-- What a method returns: of ReadRegisters both values, of ReadBatch the results, of the others the
-- error, if there is one.
pub data Outcome : Type 0 where
  value : Result → Outcome
  values : List Result → Outcome

-- The return for a response. Where the response is not of the type that the method asserts,
-- `res.(Result)` or `res.(BatchResult)` panics, which is none; Disconnect and SetDelayRuntime do
-- not look at it.
unfoldable pub receive : Command → Response → Option Outcome
receive (cmd_read req) (one r) = some (value r)
receive (cmd_write req) (one r) = some (value r)
receive (cmd_reconfigure addr slave_id) (one r) = some (value r)
receive (cmd_read_batch reqs) (batch rs) = some (values rs)
receive cmd_disconnect r = some (value (data_bytes []))
receive (cmd_set_delay delay) r = some (value (data_bytes []))
receive (cmd_read req) (batch rs) = none
receive (cmd_write req) (batch rs) = none
receive (cmd_reconfigure addr slave_id) (batch rs) = none
receive (cmd_read_batch reqs) (one r) = none

-- The return of a method that gives up: a batch has the error for each of its reads.
unfoldable pub given_up : Command → BrokerError → Outcome
given_up (cmd_read_batch reqs) e = values (map (λ _. fails e) reqs)
given_up _ e = value (fails e)

-- Where a call is: at its first select, at its second, or returned.
pub data Call : Type 0 where
  unused : Call
  offering waiting : Command → Call
  returned : Command → Outcome → Call

-- A command that was executed, with its response.
pub record Served : Type 0 where
  pub call : ℕ
  pub command : Command
  pub response : Response

-- `commands` is the channel, oldest first, `is_done` whether `done` is closed, `stopped` whether
-- Run has returned. `responses` are the response channels, `served` what Run did, oldest first.
pub record System : Type 0 where
  pub broker : Broker
  pub commands : List (ℕ × Command)
  pub responses : ℕ → Option Response
  pub calls : ℕ → Call
  pub is_done : Bool
  pub stopped : Bool
  pub served : List Served

abbrev pub commands_capacity : ℕ
commands_capacity = 32

-- A broker before its first call.
abbrev pub idle : Broker → System
idle b = record {
  broker = b;
  commands = [];
  responses = λ _. none;
  calls = λ _. unused;
  is_done = false;
  stopped = false;
  served = [];
}

abbrev pub with_call : ℕ → Call → System → System
with_call i call s = record s { calls = update s.calls i call }

abbrev pub queued : ℕ → Command → System → System
queued i c s = record (with_call i (waiting c) s) { commands = s.commands ++ ((i, c) ∷ []) }

-- The system once Run has executed the first command of the channel.
abbrev pub after_command : ℕ → Command → List (ℕ × Command) → Response → Broker → System → System
after_command i c rest r b s = record s {
  broker = b;
  commands = rest;
  responses = update s.responses i (some r);
  served = s.served ++ (record { call = i; command = c; response = r } ∷ []);
}

abbrev pub halted : World → System → System
halted w s = record s { broker = cleanup w s.broker; stopped = true }

-- A context can end at any time. A call is used once. Where a select has several ready cases, any
-- of them may be taken.
pub data Step (w : World) (rounds : ℕ) : System → System → Type 0 where
  called :
      (s : System) (i : ℕ) (c : Command)
      → s.calls i ≡ unused
      → Step w rounds s (with_call i (offering c) s)
  taken :
      (s : System) (i : ℕ) (c : Command)
      → s.calls i ≡ offering c
      → length s.commands < commands_capacity
      → Step w rounds s (queued i c s)
  refused :
      (s : System) (i : ℕ) (c : Command)
      → s.calls i ≡ offering c
      → s.is_done ≡ true
      → Step w rounds s (with_call i (returned c (given_up c broker_closed)) s)
  gave_up_offering :
      (s : System) (i : ℕ) (c : Command) (reason : String)
      → s.calls i ≡ offering c
      → Step w rounds s (with_call i (returned c (given_up c (context_error reason))) s)
  executed :
      (s : System) (i : ℕ) (c : Command) (rest : List (ℕ × Command)) (r : Response) (b : Broker)
      → s.stopped ≡ false
      → s.commands ≡ (i, c) ∷ rest
      → execute w rounds c s.broker ≡ some (r, b)
      → Step w rounds s (after_command i c rest r b s)
  received :
      (s : System) (i : ℕ) (c : Command) (r : Response) (o : Outcome)
      → s.calls i ≡ waiting c
      → s.responses i ≡ some r
      → receive c r ≡ some o
      → Step w rounds s (with_call i (returned c o) s)
  gave_up_waiting :
      (s : System) (i : ℕ) (c : Command) (reason : String)
      → s.calls i ≡ waiting c
      → Step w rounds s (with_call i (returned c (given_up c (context_error reason))) s)
  closed : (s : System) → s.is_done ≡ false → Step w rounds s (record s { is_done = true })
  stops : (s : System) → s.stopped ≡ false → Step w rounds s (halted w s)

pub data Reach (w : World) (rounds : ℕ) (s : System) : System → Type 0 where
  here : Reach w rounds s s
  next : {t u : System} → Reach w rounds s t → Step w rounds t u → Reach w rounds s u
