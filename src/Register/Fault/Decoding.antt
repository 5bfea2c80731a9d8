-- ===== src/Register/Fault/Decoding.antt =====
-- internal/register/fault.go: what the two batches of fault registers say, decoded.
use sofar_hyd_diag.Prelude.{
  ℕ, ◌+◌, ◌≡◌, refl, Bool, true, ◌&&◌, Option, some, List, [], ◌∷◌, map, leb, ltb, All, all_of,
  all_of-All, keep, any_of, arith,
}
use sofar_hyd_diag.Register.FaultBit.{FaultBit}
use sofar_hyd_diag.Register.Fault.{
  fault_table, fault_registers, bit_set, decode_with, decode_faults,
}

-- Whether one of the batches reads the register.
abbrev pub is_fetched : ℕ → Bool
is_fetched a = any_of (λ p. leb p.addr a && ltb a (p.addr + p.count)) fault_registers

abbrev active : (ℕ → ℕ) → List FaultBit → List FaultBit
active value = keep (λ fb. bit_set (value fb.addr) fb.bit)

table_fetched : all_of (λ fb. is_fetched fb.addr && ltb fb.bit 16) fault_table ≡ true
unfolding fault_table fault_registers
table_fetched = refl

decode_with-active :
    (fault_data : ℕ → Option ℕ) (value : ℕ → ℕ) (fbs : List FaultBit)
    → ((a : ℕ) → is_fetched a ≡ true → fault_data a ≡ some (value a))
    → All (λ fb. is_fetched fb.addr && ltb fb.bit 16 ≡ true) fbs
    → decode_with fault_data fbs ≡ map (λ fb. fb.desc) (active value fbs)
unfolding decode_with
decode_with-active fault_data value [] read fetched = refl
decode_with-active fault_data value (fb ∷ fbs) read (here, later) =
    let known = read fb.addr (ground arith) in
    ground (arith, decode_with-active fault_data value fbs read later)

-- Once the two batches of fault registers are read, the decoded faults are the descriptions of
-- just those bits of the table that are set in the register they belong to, in the table's order:
-- no entry of the table belongs to a register that neither batch reads.
pub decode_faults-active :
    (fault_data : ℕ → Option ℕ) (value : ℕ → ℕ)
    → ((a : ℕ) → is_fetched a ≡ true → fault_data a ≡ some (value a))
    → decode_faults fault_data
      ≡ map (λ fb. fb.desc) (keep (λ fb. bit_set (value fb.addr) fb.bit) fault_table)
unfolding decode_faults
decode_faults-active fault_data value read =
    decode_with-active fault_data value fault_table read
      (all_of-All (λ fb. is_fetched fb.addr && ltb fb.bit 16) fault_table table_fetched)
