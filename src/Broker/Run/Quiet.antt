-- ===== src/Broker/Run/Quiet.antt =====
-- A disconnected broker (internal/broker/broker.go) stays silent until it is reconfigured.
use sofar_hyd_diag.Prelude.{
  ℕ, suc, ◌≡◌, refl, ◌∙◌, true, Option, none, some, List, [], ◌∷◌, map, All, Option-cases, inl, inr,
  arith,
}
use sofar_hyd_diag.Broker.State.{
  ReadRequest, WriteRequest, data_bytes, fails, broker_is_dormant, Command, cmd_read, cmd_write,
  cmd_read_batch, cmd_reconfigure, cmd_disconnect, cmd_set_delay, Action, dialed, read_sent,
  write_sent, checked_context, World, Broker, act, context_error,
}
use sofar_hyd_diag.Broker.Execute.{set_state, close_conn, ensure_connected}
use sofar_hyd_diag.Broker.Run.{
  read_attempts, execute_read, write_attempts, execute_write, execute_batch, execute_disconnect,
  Response, one, batch, execute, run_commands,
}

-- How often the broker has used the network: dials and requests.
abbrev pub contacts : List Action → ℕ
contacts [] = 0
contacts (dialed a ∷ t) = suc (contacts t)
contacts (read_sent r ∷ t) = suc (contacts t)
contacts (write_sent r ∷ t) = suc (contacts t)
contacts (_ ∷ t) = contacts t

abbrev pub IsReconfigure : Command → Type 0
IsReconfigure (cmd_reconfigure addr slave_id) = Unit
IsReconfigure _ = ⊥

-- Dormant, with no connection.
pub record IsQuiet (b : Broker) : Type 0 where
  pub is_dormant : b.dormant ≡ true
  pub no_conn : b.conn ≡ none

-- A command that leaves a quiet broker quiet, and the network alone.
abbrev StaysQuiet {ℓ} : {A : Type ℓ} → Broker → Option (A × Broker) → Type ℓ
StaysQuiet {A} b r =
    (a : A) × (b' : Broker) × (r ≡ some (a, b'))
    × IsQuiet b'
    × (contacts b'.trace ≡ contacts b.trace)

ensure_connected-quiet :
    (w : World) (rounds : ℕ) (b : Broker)
    → IsQuiet b
    → ensure_connected w rounds b ≡ some (some broker_is_dormant, b)
unfolding ensure_connected
ensure_connected-quiet w rounds b q = ground arith

-- A read of a quiet broker fails at once and changes nothing.
execute_read-quiet :
    (w : World) (rounds : ℕ) (req : ReadRequest) (b : Broker)
    → IsQuiet b
    → execute_read w rounds req b ≡ some (fails broker_is_dormant, b)
unfolding execute_read read_attempts
execute_read-quiet w rounds req b q = rw (ensure_connected-quiet w rounds b q)

execute_write-quiet :
    (w : World) (rounds : ℕ) (req : WriteRequest) (b : Broker)
    → IsQuiet b
    → execute_write w rounds req b ≡ some (fails broker_is_dormant, b)
unfolding execute_write write_attempts
execute_write-quiet w rounds req b q = rw (ensure_connected-quiet w rounds b q)

checked-IsQuiet : (b : Broker) → IsQuiet b → IsQuiet (act checked_context b)
checked-IsQuiet b q = record { is_dormant = q.is_dormant; no_conn = q.no_conn }

execute_batch-quiet :
    (w : World) (rounds : ℕ) (reqs : List ReadRequest) (b : Broker)
    → IsQuiet b
    → StaysQuiet b (execute_batch w rounds reqs b)
unfolding execute_batch
execute_batch-quiet w rounds [] b q = ([], b, refl, q, refl)
execute_batch-quiet w rounds (req ∷ reqs) b q = elim (Option-cases (w.cancelled b.trace)) [
  | inr (reason, e) ↦ (
    map (λ _. fails (context_error reason)) (req ∷ reqs),
    act checked_context b,
    rw (e, execute_batch),
    checked-IsQuiet b q,
    refl,
  )
  | inl e ↦
      let (results, b', e', q', n) =
        execute_batch-quiet w rounds reqs (act checked_context b) (checked-IsQuiet b q) in
      (
        fails broker_is_dormant ∷ results,
        b',
        rw (
          e,
          execute_batch,
          execute_read-quiet w rounds req (act checked_context b) (checked-IsQuiet b q),
          e',
        ),
        q',
        n,
      )
]

execute_disconnect-IsQuiet :
    (w : World) (b : Broker)
    → IsQuiet (execute_disconnect w b)
      × (contacts (execute_disconnect w b).trace ≡ contacts b.trace)
unfolding execute_disconnect set_state close_conn
execute_disconnect-IsQuiet w b = ground arith

execute-quiet :
    (w : World) (rounds : ℕ) (c : Command) (b : Broker)
    → ¬ IsReconfigure c
    → IsQuiet b
    → StaysQuiet b (execute w rounds c b)
unfolding execute
execute-quiet w rounds (cmd_read req) b r q =
    (one (fails broker_is_dormant), b, rw (execute_read-quiet w rounds req b q), q, refl)
execute-quiet w rounds (cmd_write req) b r q =
    (one (fails broker_is_dormant), b, rw (execute_write-quiet w rounds req b q), q, refl)
execute-quiet w rounds (cmd_read_batch reqs) b r q =
    let (results, b', e, q', n) = execute_batch-quiet w rounds reqs b q in
    (batch results, b', rw e, q', n)
execute-quiet w rounds (cmd_reconfigure addr slave_id) b r q = absurd (r tt)
execute-quiet w rounds cmd_disconnect b r q = (
  one (data_bytes []),
  execute_disconnect w b,
  refl,
  (execute_disconnect-IsQuiet w b).0,
  (execute_disconnect-IsQuiet w b).1,
)
execute-quiet w rounds (cmd_set_delay delay) b r q = (
  one (data_bytes []),
  record b { inter_read_delay = delay },
  refl,
  record { is_dormant = q.is_dormant; no_conn = q.no_conn },
  refl,
)

run_commands-quiet :
    (w : World) (rounds : ℕ) (cs : List Command) (b : Broker)
    → All (λ c. ¬ IsReconfigure c) cs
    → IsQuiet b
    → StaysQuiet b (run_commands w rounds cs b)
unfolding run_commands
run_commands-quiet w rounds [] b r q = ([], b, refl, q, refl)
run_commands-quiet w rounds (c ∷ cs) b r q =
    let (x, b', e, q', n) = execute-quiet w rounds c b r.0 q in
    let (xs, b'', e', q'', n') = run_commands-quiet w rounds cs b' r.1 q' in
    (x ∷ xs, b'', rw (e, run_commands) (rw e'), q'', n' ∙ n)

-- After a disconnect, in any state of the broker and whatever the world does, every sequence of
-- commands without a reconfiguration is carried out with no dial and no request at all, and the
-- broker is still dormant and without a connection: it never reconnects by itself.
pub execute_disconnect-run_commands :
    (w : World) (rounds : ℕ) (cs : List Command) (b : Broker)
    → All (λ c. ¬ IsReconfigure c) cs
    → (responses : List Response) × (b' : Broker) × (run_commands w rounds cs
          (execute_disconnect w b)
        ≡ some (responses, b'))
      × IsQuiet b'
      × (contacts b'.trace ≡ contacts b.trace)
execute_disconnect-run_commands w rounds cs b r =
    let (q, n) = execute_disconnect-IsQuiet w b in
    let (xs, b', e, q', n') = run_commands-quiet w rounds cs (execute_disconnect w b) r q in
    (xs, b', e, q', n' ∙ n)
