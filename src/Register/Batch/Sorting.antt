-- ===== src/Register/Batch/Sorting.antt =====
-- What internal/register/batch.go relies on of sort.Slice: probes by their addresses.
use sofar_hyd_diag.Prelude.{ℕ, ◌≤◌, List}
use sofar_hyd_diag.Prelude.Sorting
use sofar_hyd_diag.Register.Batch.{AnnotatedProbe}

abbrev probe_addr : AnnotatedProbe → ℕ
probe_addr ap = ap.probe.addr

-- Addresses ascend, from `lo` on.
abbrev pub Ascending : ℕ → List AnnotatedProbe → Type 0
Ascending = Sorting.Ascends probe_addr

pub Ascending-mono :
    {lo lo' : ℕ} → lo ≤ lo' → (aps : List AnnotatedProbe) → Ascending lo' aps → Ascending lo aps
Ascending-mono = Sorting.Ascends-mono probe_addr

abbrev pub AddrSort : Type 0
AddrSort = Sorting.Sort probe_addr

abbrev pub by_insertion : AddrSort
by_insertion = Sorting.by_insertion probe_addr
