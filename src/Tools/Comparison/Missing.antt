-- ===== src/Tools/Comparison/Missing.antt =====
-- What the comparison reports missing, with the probes of the code as `currentProbeAddrs` collects
-- them.
use sofar_hyd_diag.Prelude.{
  ℕ, ◌≡◌, refl, ap, ◌∙◌, inl, inr, Bool, true, false, not, ◌&&◌, ◌||◌, List, [], ◌∷◌, ◌==◌,
  Bool-cases, any_of, All, All-mono, arith,
}
use text.Mathlib.Text.{◌==◌ as same_text}
use sofar_hyd_diag.Prelude.Sorting.{Sort}
use sofar_hyd_diag.Register.Probe.{Probe}
use sofar_hyd_diag.Tools.Comparison.{
  RegisterInfo, RegisterMap, info_at, assign, ComparisonEntry, entry_addr, entry_at, compare,
  is_some, label, status_label, probe_info, add_probes, current_probes, current_probe_addrs,
}
use sofar_hyd_diag.Tools.Comparison.Merging.{is_listed, Increasing, compare-IsMerge}

assign-info_at :
    (b : ℕ) (info : RegisterInfo) (m : RegisterMap) (a : ℕ)
    → is_some (info_at a (assign b info m)) ≡ (a == b) || is_some (info_at a m)
unfolding assign info_at
assign-info_at b info [] a = elim (Bool-cases (a == b)) [
  | inl here ↦ rw here refl
  | inr other ↦ rw other refl
]
assign-info_at b info (p ∷ m) a = elim (Bool-cases (b == p.0)) [
  | inl same ↦ rw same (elim (Bool-cases (a == b)) [
    | inl here ↦ rw here refl
    | inr other ↦ let not_p : (a == p.0) ≡ false = ground arith in rw (other, not_p) refl
  ])
  | inr later ↦ rw later (elim (Bool-cases (a == p.0)) [
    | inl found ↦ rw found (ground arith)
    | inr not_p ↦ rw (not_p, assign-info_at b info m a) refl
  ])
]

abbrev pub is_read : ℕ → List Probe → Bool
is_read a ps = any_of (λ p. a == p.addr) ps

add_probes-info_at :
    (ps : List Probe) (m : RegisterMap) (a : ℕ)
    → is_some (info_at a (add_probes ps m)) ≡ is_read a ps || is_some (info_at a m)
unfolding add_probes
add_probes-info_at [] m a = refl
add_probes-info_at (p ∷ ps) m a =
    rw
      (
        add_probes-info_at ps (assign p.addr (probe_info p) m) a,
        assign-info_at p.addr (probe_info p) m a,
      )
      (ground arith)

label-missing : (x v p : Bool) → same_text (label x v p) "missing from probes" ≡ x && (v && not p)
label-missing true true true = refl
label-missing true true false = refl
label-missing true false true = refl
label-missing true false false = refl
label-missing false true true = refl
label-missing false true false = refl
label-missing false false true = refl
label-missing false false false = refl

module _ (xlsx v138 : RegisterMap) where
  abbrev pub report : Sort entry_addr → List ComparisonEntry
  report = compare xlsx v138 current_probe_addrs

  -- What the report of `main` is: `missing` says which entries it labels so.
  pub record IsReport (es : List ComparisonEntry) : Type 0 where
    pub ordered : Increasing 0 es
    pub listed :
        (a : ℕ)
        → is_listed a es
          ≡ is_some (info_at a xlsx) || is_some (info_at a v138) || is_read a current_probes
    pub missing :
        All
          (λ e.
            same_text (status_label e) "missing from probes"
            ≡ is_some (info_at e.addr xlsx)
              && (is_some (info_at e.addr v138) && not (is_read e.addr current_probes)))
          es

  probes-is_read : (a : ℕ) → is_some (info_at a current_probe_addrs) ≡ is_read a current_probes
  unfolding current_probe_addrs
  probes-is_read a = add_probes-info_at current_probes [] a ∙ unfold info_at in ground arith

  entry-missing :
      (e : ComparisonEntry)
      → e ≡ entry_at xlsx v138 current_probe_addrs e.addr
      → same_text (status_label e) "missing from probes"
        ≡ is_some (info_at e.addr xlsx)
          && (is_some (info_at e.addr v138) && not (is_read e.addr current_probes))
  unfolding status_label entry_at
  entry-missing e told =
      ap (λ x. same_text (status_label x) "missing from probes") told
      ∙ label-missing (is_some (info_at e.addr xlsx)) (is_some (info_at e.addr v138))
          (is_some (info_at e.addr current_probe_addrs))
      ∙ rw (probes-is_read e.addr) refl

  -- Whatever the spreadsheet and the document hold and whatever sort is used, the report has each
  -- register of the two and of the probes of the code once, in the order of the addresses, and it
  -- labels as missing those that both have and that no probe of the code starts at.
  pub compare-IsReport : (by : Sort entry_addr) → IsReport (report by)
  compare-IsReport by =
      let merged = compare-IsMerge xlsx v138 current_probe_addrs by in
      record {
        ordered = merged.ordered;
        listed = λ a. merged.listed a ∙ rw (probes-is_read a) refl;
        missing = All-mono entry-missing (report by) merged.told;
      }
