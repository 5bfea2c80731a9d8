-- ===== src/Hub/Extraction.antt =====
-- internal/hub/hub_streaming.go: the bytes of one probe out of the response to a batch read.
use sofar_hyd_diag.Prelude.{
  ℕ, zero, suc, ◌+◌, ◌-◌, ◌*◌, ◌/◌, ◌%◌, ◌≡◌, refl, ap, sym, Option, none, some, List, [], ◌∷◌, ltb,
  if◌then◌else◌, length, take, drop, All, All-mono, arith, zero-add, suc-add, false,
}
use sofar_hyd_diag.Register.Probe.{ProbeGroup}
use sofar_hyd_diag.Register.Batch.{ProbeMapping, BatchSpan, analyze_batch_plan}
use sofar_hyd_diag.Register.Batch.Sorting.{AddrSort}
use sofar_hyd_diag.Register.Batch.Layout.{IsPlaced, GroupsInRange, analyze_batch_plan-IsLaidOut}

-- The slice of the response that is the probe's, or none for "short response".
unfoldable pub extract_probe_data : List ℕ → ProbeMapping → Option (List ℕ)
extract_probe_data data_bytes pm =
    let end = pm.byte_offset + pm.byte_length in
    if ltb (length data_bytes) end
    then none
    else some (take (end - pm.byte_offset) (drop pm.byte_offset data_bytes))

-- What a device with these register values answers to a read of `count` registers from `addr` on.
abbrev pub response : (ℕ → ℕ) → ℕ → ℕ → List ℕ
response memory addr zero = []
response memory addr (suc n) = memory addr / 256 ∷ memory addr % 256 ∷ response memory (suc addr) n

module _ (memory : ℕ → ℕ) where
  length-response : (addr n : ℕ) → length (response memory addr n) ≡ 2 * n
  length-response addr zero = refl
  length-response addr (suc n) = omega (arith, length-response (suc addr) n)

  two-suc : (n : ℕ) → 2 * suc n ≡ suc (suc (2 * n))
  two-suc n = omega arith

  drop-response :
      (addr k n : ℕ) → drop (2 * k) (response memory addr (k + n)) ≡ response memory (addr + k) n
  drop-response addr zero n = rw zero-add (ap (λ (a : ℕ). response memory a n) (omega arith))
  drop-response addr (suc k) n =
      rw (two-suc k, suc-add) (rw (shift) at (drop-response (suc addr) k n))
    where
      shift : suc addr + k ≡ addr + suc k
      shift = omega arith

  take-response :
      (addr n k : ℕ) → take (2 * n) (response memory addr (n + k)) ≡ response memory addr n
  take-response addr zero k = refl
  take-response addr (suc n) k =
      rw (two-suc n, suc-add)
        (ap (λ (t : List ℕ). memory addr / 256 ∷ memory addr % 256 ∷ t)
          (take-response (suc addr) n k))

  slice-response :
      (start k n j : ℕ)
      → take (2 * n) (drop (2 * k) (response memory start (k + (n + j))))
        ≡ response memory (start + k) n
  slice-response start k n j = rw (drop-response start k (n + j)) (take-response (start + k) n j)

  -- A placed probe's slice is what a read of the probe alone gives.
  extract_placed :
      (start total : ℕ) (m : ProbeMapping)
      → IsPlaced start total m
      → extract_probe_data (response memory start total) m
        ≡ some (response memory m.probe.addr m.probe.count)
  unfolding extract_probe_data
  extract_placed start total m placed = rw (long_enough, width) (ap some sliced)
    where
      long_enough :
          ltb (length (response memory start total)) (m.byte_offset + m.byte_length) ≡ false
      long_enough = ground (
        arith,
        length-response start total,
        placed.from_start,
        placed.to_end,
        placed.offset,
        placed.bytes,
      )

      width : m.byte_offset + m.byte_length - m.byte_offset ≡ 2 * m.probe.count
      width = omega (arith, placed.bytes)

      sliced :
          take (2 * m.probe.count) (drop m.byte_offset (response memory start total))
          ≡ response memory m.probe.addr m.probe.count
      sliced =
          rw (addr_at, all_of_it, offset_at) at
            (slice-response start (m.probe.addr - start) m.probe.count
              (start + total - (m.probe.addr + m.probe.count)))
        where
          addr_at : start + (m.probe.addr - start) ≡ m.probe.addr
          addr_at = omega (arith, placed.from_start)

          all_of_it :
              m.probe.addr
                - start
                + (m.probe.count + (start + total - (m.probe.addr + m.probe.count)))
              ≡ total
          all_of_it = omega (arith, placed.from_start, placed.to_end)

          offset_at : 2 * (m.probe.addr - start) ≡ m.byte_offset
          offset_at = sym placed.offset

-- Whatever sort is used, if every probe ends before register 65535, then for any register values
-- of the device, each probe of each span of the plan gets from the response to the read of the
-- whole span the very bytes that a read of the probe alone gives, and never a short response.
pub extract_probe_data-analyze_batch_plan :
    (by : AddrSort) (gs : List ProbeGroup) (memory : ℕ → ℕ)
    → GroupsInRange gs
    → All
        (λ (s : BatchSpan).
          All
            (λ (m : ProbeMapping).
              extract_probe_data (response memory s.start_addr s.total_count) m
              ≡ some (response memory m.probe.addr m.probe.count))
            s.probes)
        (analyze_batch_plan by.sort gs).spans
extract_probe_data-analyze_batch_plan by gs memory h =
    All-mono
      (λ s laid_out.
        All-mono (λ m placed. extract_placed memory s.start_addr s.total_count m placed) s.probes
          laid_out.placed)
      (analyze_batch_plan by.sort gs).spans (analyze_batch_plan-IsLaidOut by gs h)
