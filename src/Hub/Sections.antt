-- ===== src/Hub/Sections.antt =====
-- The sections that internal/hub/hub.go registers at its start, and their batch plans.
use sofar_hyd_diag.Prelude.{
  ℕ, zero, suc, ◌+◌, ◌<◌, ◌≡◌, refl, inl, inr, Bool, true, ◌&&◌, ◌||◌, ltb, leb, Bool-cases, List,
  [], ◌∷◌, drop, ◌++◌, if◌then◌else◌, All, all_of, all_of-All, All-mono, decimal, ap, ◌==◌, ==_iff,
  arith,
}
use sofar_hyd_diag.Register.Probe.{ProbeGroup}
use sofar_hyd_diag.Register.Batch.{
  AnnotatedProbe, max_batch_registers, collect, collect_probes, analyze_batch_plan,
}
use sofar_hyd_diag.Register.Batch.Sorting.{AddrSort}
use sofar_hyd_diag.Register.Batch.Placing.{probe_end}
use sofar_hyd_diag.Register.Batch.Apart.{Apart, PairsApart}
use sofar_hyd_diag.Register.Batch.Limit.{WithinLimit, analyze_batch_plan-WithinLimit}
use sofar_hyd_diag.Register.Generated.{
  generate_pv_groups, pv_groups, pv_group, statistics_groups, metric_probes,
}
use sofar_hyd_diag.Register.System.{system_groups, grid_groups, eps_groups}
use sofar_hyd_diag.Register.Units.{pcu_groups, bdu_groups, meter_groups}
use sofar_hyd_diag.Register.Configuration.{configuration_groups}
use sofar_hyd_diag.Register.Battery.{
  generate_battery_groups, channel_groups, channel_group, global_stats_group,
}
use sofar_hyd_diag.Register.Battery.Bms.{bms_info_groups, internal_info_groups}

-- The clamp in `NewHub`; a negative number of channels, which becomes 2 too, is not one here.
unfoldable pub clamp_pv_channels : ℕ → ℕ
clamp_pv_channels pv_channels =
    let at_least = if ltb pv_channels 2 then 2 else pv_channels in
    if ltb 16 at_least then 16 else at_least

-- `registerBuiltinSections`: the groups of each section, in its order.
unfoldable pub builtin_sections : ℕ → List (List ProbeGroup)
builtin_sections default_pv_channels =
    (system_groups ++ statistics_groups)
    ∷ configuration_groups
    ∷ grid_groups
    ∷ eps_groups
    ∷ generate_pv_groups default_pv_channels
    ∷ (generate_battery_groups 2 ++ internal_info_groups)
    ∷ bms_info_groups
    ∷ meter_groups
    ∷ pcu_groups
    ∷ bdu_groups
    ∷ []

abbrev apart : AnnotatedProbe → AnnotatedProbe → Bool
apart p q = leb (probe_end p) q.probe.addr || leb (probe_end q) p.probe.addr

abbrev pairs_apart : List AnnotatedProbe → Bool
pairs_apart [] = true
pairs_apart (ap ∷ aps) = all_of (apart ap) aps && pairs_apart aps

apart-Apart : (p q : AnnotatedProbe) → apart p q ≡ true → Apart p q
apart-Apart p q h = elim (Bool-cases (leb (probe_end p) q.probe.addr)) [
  | inl before ↦ inl (ground arith)
  | inr not_before ↦ inr (ground arith)
]

pairs_apart-PairsApart : (aps : List AnnotatedProbe) → pairs_apart aps ≡ true → PairsApart aps
pairs_apart-PairsApart [] h = tt
pairs_apart-PairsApart (p ∷ aps) h = (
  All-mono (apart-Apart p) aps (all_of-All (apart p) aps (ground arith)),
  pairs_apart-PairsApart aps (ground arith),
)

-- What the theorem on the limit asks of the groups, as a test.
abbrev fits_plan : List ProbeGroup → Bool
fits_plan gs =
    all_of (λ (g : ProbeGroup). all_of (λ p. ltb (p.addr + p.count) 65536) g.probes) gs
    && (all_of (λ (ap : AnnotatedProbe). leb ap.probe.count max_batch_registers) (collect gs).0
        && pairs_apart (collect gs).0)

fits_plan-WithinLimit :
    (by : AddrSort) (gs : List ProbeGroup)
    → fits_plan gs ≡ true
    → All WithinLimit (analyze_batch_plan by.sort gs).spans
fits_plan-WithinLimit by gs h =
    analyze_batch_plan-WithinLimit by gs
      (All-mono
        (λ (g : ProbeGroup) ok.
          All-mono (λ p (e : ltb (p.addr + p.count) 65536 ≡ true). ground arith) g.probes
            (all_of-All (λ p. ltb (p.addr + p.count) 65536) g.probes ok))
        gs
        (all_of-All (λ (g : ProbeGroup). all_of (λ p. ltb (p.addr + p.count) 65536) g.probes) gs
          (ground arith)))
      (All-mono
        (λ (ap : AnnotatedProbe) (e : leb ap.probe.count max_batch_registers ≡ true). ground arith)
        (collect gs).0
        (all_of-All (λ (ap : AnnotatedProbe). leb ap.probe.count max_batch_registers) (collect gs).0
          (ground arith)))
      (pairs_apart-PairsApart (collect gs).0 (ground arith))

-- The test for the sections of every hub with fewer than n PV channels.
abbrev sections_fit : ℕ → Bool
sections_fit zero = true
sections_fit (suc n) = all_of fits_plan (drop 1 (builtin_sections n)) && sections_fit n

all_sections_fit : sections_fit 17 ≡ true
unfolding builtin_sections generate_pv_groups pv_groups pv_group collect collect_probes decimal
    system_groups statistics_groups metric_probes configuration_groups grid_groups eps_groups
    generate_battery_groups channel_groups channel_group global_stats_group internal_info_groups
    bms_info_groups meter_groups pcu_groups bdu_groups
all_sections_fit = refl

sections_fit-channels :
    (k n : ℕ)
    → sections_fit k ≡ true
    → n < k
    → all_of fits_plan (drop 1 (builtin_sections n)) ≡ true
sections_fit-channels zero n h less = elim less [ ]
sections_fit-channels (suc k) n h less = elim (Bool-cases (n == k)) [
  | inl last ↦ rw (same last) (ground arith)
  | inr before ↦ sections_fit-channels k n (ground arith) (ground (arith, ==_iff n k))
]
  where
    same : n == k ≡ true → n ≡ k
    same last = ground (arith, ==_iff n k)

clamp_pv_channels-le : (n : ℕ) → clamp_pv_channels n < 17
unfolding clamp_pv_channels
clamp_pv_channels-le n = ground arith

-- Whatever sort is used and whatever number of PV channels the server is started with, no span of
-- the plan of any section that the hub registers has more than 60 registers, but for the first, the
-- system section (two of its probes share registers).
pub builtin_sections-WithinLimit :
    (by : AddrSort) (pv_channels : ℕ)
    → All
        (λ (gs : List ProbeGroup). All WithinLimit (analyze_batch_plan by.sort gs).spans)
        (drop 1 (builtin_sections (clamp_pv_channels pv_channels)))
builtin_sections-WithinLimit by pv_channels =
    All-mono (fits_plan-WithinLimit by) (drop 1 (builtin_sections (clamp_pv_channels pv_channels)))
      (all_of-All fits_plan (drop 1 (builtin_sections (clamp_pv_channels pv_channels))) (
        sections_fit-channels 17 (clamp_pv_channels pv_channels) all_sections_fit
          (clamp_pv_channels-le pv_channels)))
