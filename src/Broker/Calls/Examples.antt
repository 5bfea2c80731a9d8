-- ===== src/Broker/Calls/Examples.antt =====
-- The theorems on the broker's callers, at two calls of which the second is queued when Run stops.
use sofar_hyd_diag.Prelude.{
  ℕ, ◌≤◌, ◌≡◌, refl, ◌⊎◌, false, String, none, some, [], ◌∷◌, map, if◌then◌else◌, arith,
}
use sofar_hyd_diag.Broker.State.{
  data_bytes, Command, cmd_set_delay, cmd_disconnect, context_error, dial_err, World, Broker,
}
use sofar_hyd_diag.Broker.Execute.{new}
use sofar_hyd_diag.Broker.Run.{one, execute, cleanup, run_commands}
use sofar_hyd_diag.Broker.Calls.{
  Outcome, value, receive, given_up, offering, waiting, returned, Served, System, idle, with_call,
  queued, after_command, halted, called, taken, executed, received, gave_up_waiting, Reach, here,
  next,
}
use sofar_hyd_diag.Broker.Calls.Invariant.{InLog, Explained, times_served}
use sofar_hyd_diag.Broker.Calls.Serial.{idle-refines, receive-own}
use sofar_hyd_diag.Broker.Calls.Closing.{stopped-Waits}

abbrev silent_world : World
silent_world = record {
  dial = λ t addr. dial_err "no route to host";
  peer = λ t c. c;
  rounds = λ t. 1;
  cancelled = λ t. none;
  now = λ t. 0;
  event_room = λ t. false;
  abort_requested = λ t. false;
}

abbrev fresh : Broker
fresh = new "192.168.1.10:8899" 1 false

abbrev delay : Command
delay = cmd_set_delay 100

abbrev both_queued : System
both_queued = queued 2 cmd_disconnect (
    with_call 2 (offering cmd_disconnect)
      (queued 1 delay (with_call 1 (offering delay) (idle fresh))))

abbrev answered : System
answered =
    after_command 1 delay ((2, cmd_disconnect) ∷ []) (one (data_bytes []))
      (record fresh { inter_read_delay = 100 }) both_queued

abbrev back : System
back = with_call 1 (returned delay (value (data_bytes []))) answered

abbrev stranded : System
stranded = halted silent_world back

abbrev freed : System
freed =
    with_call 2
      (returned cmd_disconnect (given_up cmd_disconnect (context_error "context canceled")))
      stranded

reach_answered : Reach silent_world 1 (idle fresh) answered
unfolding execute
reach_answered =
    next
      (next
        (next
          (next (next here (called (idle fresh) 1 delay refl))
            (taken (with_call 1 (offering delay) (idle fresh)) 1 delay refl (omega arith)))
          (called (queued 1 delay (with_call 1 (offering delay) (idle fresh))) 2 cmd_disconnect
            refl))
        (taken
          (with_call 2 (offering cmd_disconnect)
            (queued 1 delay (with_call 1 (offering delay) (idle fresh))))
          2 cmd_disconnect refl (omega arith)))
      (executed both_queued 1 delay ((2, cmd_disconnect) ∷ []) (one (data_bytes []))
        (record fresh { inter_read_delay = 100 }) refl refl refl)

reach_back : Reach silent_world 1 (idle fresh) back
unfolding receive
reach_back =
    next reach_answered
      (received answered 1 delay (one (data_bytes [])) (value (data_bytes [])) refl refl refl)

receive-own_example :
    InLog 1 delay (one (data_bytes [])) answered.served
    × ((o : Outcome) × (receive delay (one (data_bytes [])) ≡ some o))
receive-own_example =
    receive-own silent_world 1 fresh answered 1 delay (one (data_bytes [])) reach_answered refl refl

idle-refines_example :
    ((b : Broker) × (run_commands silent_world 1 (map (λ (x : Served). x.command) back.served) fresh
        ≡ some (map (λ (x : Served). x.response) back.served, b))
      × (back.broker ≡ (if back.stopped then cleanup silent_world b else b)))
    × ((i : ℕ) → times_served i back.served ≤ 1)
    × ((i : ℕ) (c : Command) (o : Outcome)
        → back.calls i ≡ returned c o
        → Explained i back.served c o)
idle-refines_example = idle-refines silent_world 1 fresh back reach_back

stopped-Waits_example :
    (freed.calls 2 ≡ waiting cmd_disconnect)
    ⊎ ((reason : String) × (freed.calls 2
          ≡ returned cmd_disconnect (given_up cmd_disconnect (context_error reason))))
stopped-Waits_example =
    stopped-Waits silent_world 1 2 cmd_disconnect stranded freed refl refl refl
      (next here (gave_up_waiting stranded 2 cmd_disconnect "context canceled" refl))
