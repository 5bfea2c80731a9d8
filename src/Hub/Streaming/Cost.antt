-- ===== src/Hub/Streaming/Cost.antt =====
-- How much a read of a section (internal/hub/hub_streaming.go) asks of the device at most.
use sofar_hyd_diag.Prelude.{ℕ, suc, ◌+◌, ◌≤◌, String, List, [], ◌∷◌, length}
use sofar_hyd_diag.Register.Probe.{Probe}
use sofar_hyd_diag.Register.Batch.{BatchSpan}
use sofar_hyd_diag.Hub.SpanTracker.{SpanTracker}
use sofar_hyd_diag.Hub.Streaming.{Event, requested, Reader, Stream}

-- The reads asked for.
abbrev pub requests : List Event → ℕ
requests [] = 0
requests (requested addr count ∷ t) = suc (requests t)
requests (_ ∷ t) = requests t

-- A read of each span, and one of each probe of it.
abbrev pub reads_of : List BatchSpan → ℕ
reads_of [] = 0
reads_of (s ∷ ss) = suc (length s.probes) + reads_of ss

module _ (rd : Reader) (section : String) (probes : List Probe) where
  -- At most so many reads more.
  abbrev Asks : ℕ → Stream → Stream → Type 0
  Asks n st st' = requests st'.trace ≤ n + requests st.trace
