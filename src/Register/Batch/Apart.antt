-- ===== src/Register/Batch/Apart.antt =====
-- Probes that share no register, in whatever order internal/register/batch.go sorts them.
use mathlib.Core.List.{Permᴰ}
use sofar_hyd_diag.Prelude.{ℕ, ◌≤◌, sym, subst, ◌⊎◌, inl, inr, List, [], ◌∷◌, All, All-perm, arith}
use sofar_hyd_diag.Register.Batch.{AnnotatedProbe}
use sofar_hyd_diag.Register.Batch.Sorting.{Ascending}
use sofar_hyd_diag.Register.Batch.Placing.{Fits, probe_end}

-- Each probe starts where the one before it ends, or later: from `lo` on.
abbrev pub Disjoint : ℕ → List AnnotatedProbe → Type 0
Disjoint lo [] = Unit {0}
Disjoint lo (ap ∷ aps) = (lo ≤ ap.probe.addr) × Disjoint (probe_end ap) aps

-- One of two probes ends before the other starts.
abbrev pub Apart : AnnotatedProbe → AnnotatedProbe → Type 0
Apart p q = (probe_end p ≤ q.probe.addr) ⊎ (probe_end q ≤ p.probe.addr)

abbrev pub PairsApart : List AnnotatedProbe → Type 0
PairsApart [] = Unit {0}
PairsApart (ap ∷ aps) = All (Apart ap) aps × PairsApart aps

Apart-sym : (p q : AnnotatedProbe) → Apart p q → Apart q p
Apart-sym p q (inl h) = inr h
Apart-sym p q (inr h) = inl h

PairsApart-swap :
    (p q : AnnotatedProbe) (aps : List AnnotatedProbe)
    → PairsApart (p ∷ q ∷ aps)
    → PairsApart (q ∷ p ∷ aps)
PairsApart-swap p q aps h = ((Apart-sym p q h.0.0, h.1.0), (h.0.1, h.1.1))

pub PairsApart-perm :
    {aps bps : List AnnotatedProbe} → Permᴰ aps bps → PairsApart bps → PairsApart aps
PairsApart-perm Permᴰ.nil h = tt
PairsApart-perm (Permᴰ.cons {b = b'} {l₁ = l₁} e p) h =
    (subst (λ x. All (Apart x) l₁) (sym e) (All-perm (Apart b') p h.0), PairsApart-perm p h.1)
PairsApart-perm (Permᴰ.swap {b = b'} {a' = c} {b' = d} {l = l} e e') h =
    subst (λ x. PairsApart (x ∷ b' ∷ l)) (sym e)
      (subst (λ y. PairsApart (d ∷ y ∷ l)) (sym e') (PairsApart-swap c d l h))
PairsApart-perm (Permᴰ.trans p q) h = PairsApart-perm p (PairsApart-perm q h)

Ascending-behind :
    (ap : AnnotatedProbe) (aps : List AnnotatedProbe)
    → All Fits aps
    → Ascending ap.probe.addr aps
    → All (Apart ap) aps
    → Ascending (probe_end ap) aps
Ascending-behind ap [] fits asc apart = tt
Ascending-behind ap (b ∷ bs) fits asc (inl h, apart) = (h, asc.1)
Ascending-behind ap (b ∷ bs) fits asc (inr h, apart) = absurd (omega (arith, asc.0, fits.0.0))

pub Ascending-Disjoint :
    (lo : ℕ) (aps : List AnnotatedProbe)
    → All Fits aps
    → Ascending lo aps
    → PairsApart aps
    → Disjoint lo aps
Ascending-Disjoint lo [] fits asc apart = tt
Ascending-Disjoint lo (ap ∷ aps) fits asc apart = (
  asc.0,
  Ascending-Disjoint (probe_end ap) aps fits.1 (Ascending-behind ap aps fits.1 asc.1 apart.0)
      apart.1,
)
