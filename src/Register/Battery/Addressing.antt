-- ===== src/Register/Battery/Addressing.antt =====
-- internal/register/battery.go: how the pack to query is packed into register 0x9020.
use sofar_hyd_diag.Prelude.{ℕ, ◌+◌, ◌-◌, ◌*◌, ◌/◌, ◌%◌, ◌≤◌, ◌≡◌, ap, ◌∙◌, sym, arith}
use native.Mathlib.Nat.{mul-add-div_right, div-eq_of_lt}
use sofar_hyd_diag.Register.Battery.{encode_pack_query}

encode_pack_query-bytes :
    (input tower pack towers : ℕ)
    → (input - 1) * towers + (tower - 1) ≤ 15
    → pack ≤ 256
    → (encode_pack_query input tower pack towers % 256 ≡ pack - 1)
      × (encode_pack_query input tower pack towers / 256 ≡ (input - 1) * towers + (tower - 1))
unfolding encode_pack_query
encode_pack_query-bytes input tower pack towers few packs =
    let group_idx = (input - 1) * towers + (tower - 1) in (omega arith, omega arith)

group_input :
    (input tower towers : ℕ)
    → 1 ≤ tower
    → tower ≤ towers
    → (input * towers + (tower - 1)) / towers ≡ input
group_input input tower towers one_up within =
    mul-add-div_right {m = towers} (omega arith) input (tower - 1)
    ∙ rw (div-eq_of_lt {n = tower - 1} {m = towers} (omega arith)) (omega arith)

-- Two selections of a pack that get the same query are the same selection: with the same number of
-- towers per input, towers from 1 to that number, at most 16 towers in all, and packs from 1 to
-- 256.
pub encode_pack_query-injective :
    (input tower pack input' tower' pack' towers : ℕ)
    → 1 ≤ input
    → 1 ≤ input'
    → 1 ≤ tower
    → 1 ≤ tower'
    → 1 ≤ pack
    → 1 ≤ pack'
    → tower ≤ towers
    → tower' ≤ towers
    → (input - 1) * towers + (tower - 1) ≤ 15
    → (input' - 1) * towers + (tower' - 1) ≤ 15
    → pack ≤ 256
    → pack' ≤ 256
    → encode_pack_query input tower pack towers ≡ encode_pack_query input' tower' pack' towers
    → (input ≡ input') × (tower ≡ tower') × (pack ≡ pack')
encode_pack_query-injective input tower pack input' tower' pack' towers i1 i1' t1 t1' p1 p1' t t' g
      g' p p' same =
    let bytes = encode_pack_query-bytes input tower pack towers g p in
    let bytes' = encode_pack_query-bytes input' tower' pack' towers g' p' in
    let groups = sym bytes.1 ∙ ap (λ q. q / 256) same ∙ bytes'.1 in
    let packs = sym bytes.0 ∙ ap (λ q. q % 256) same ∙ bytes'.0 in
    let inputs =
      sym (group_input (input - 1) tower towers t1 t)
      ∙ ap (λ q. q / towers) groups
      ∙ group_input (input' - 1) tower' towers t1' t' in
    (omega (arith, inputs), tower_same groups inputs, omega (arith, packs))
  where
    tower_same :
        (input - 1) * towers + (tower - 1) ≡ (input' - 1) * towers + (tower' - 1)
        → input - 1 ≡ input' - 1
        → tower ≡ tower'
    tower_same groups inputs = let groups' = rw inputs at groups in omega (arith, groups')
