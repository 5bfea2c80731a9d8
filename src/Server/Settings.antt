-- ===== src/Server/Settings.antt =====
-- What the settings of cmd/server/main.go come to: which source a flag is taken from, and that what
-- is started has the values that were checked.
use sofar_hyd_diag.Prelude.{
  str_append, subst, ℕ, ◌≤◌, ◌≡◌, refl, sym, ap, ◌∙◌, ◌⊎◌, inl, inr, Bool, true, false, String,
  Option, none, some, [], ◌∷◌, if◌then◌else◌, Bool-cases, Option-cases,
}
use text.Mathlib.Text.{◌==◌ as same_text}
use text.Mathlib.TextEquality.{eq_iff}
use sofar_hyd_diag.Register.Format.{ℤ, pos}
use sofar_hyd_diag.Server.{
  integer_string, FlagValue, FlagSet, set_value, set_flag, EnvMap, override, apply_env_overrides,
  text_at, number_at, Server,
}

-- The variable of a flag, if it has one.
unfoldable pub env_name_of : String → EnvMap → Option String
env_name_of n [] = none
env_name_of n (p ∷ ps) = let rest = env_name_of n ps in if same_text n p.0 then some p.1 else rest

-- No flag stands twice, as in the keys of a map.
abbrev pub Distinct : EnvMap → Type 0
Distinct [] = Unit
Distinct (p ∷ ps) = (env_name_of p.0 ps ≡ none) × Distinct ps

module _ (parse_int : String → ℤ) (env : String → Option String) (explicitly : String → Bool) where
  -- Flag, then variable, then default.
  unfoldable pub chosen : String → Option String → Option FlagValue → Option FlagValue
  unfolding set_value
  chosen n none v = v
  chosen n (some env_name) v = if explicitly n then v else elim (env env_name) [
    | none ↦ v
    | some val ↦ elim v [ none ↦ none | some old ↦ some (set_value parse_int val old) ]
  ]

  override-other :
      (n name env_name : String) (fs : FlagSet)
      → same_text n name ≡ false
      → override parse_int env explicitly name env_name fs n ≡ fs n
  unfolding override set_flag
  override-other n name env_name fs other = elim (Bool-cases (explicitly name)) [
    | inl given ↦ rw given refl
    | inr absent ↦ elim (Option-cases (env env_name)) [
      | inl unset ↦ rw (absent, unset) refl
      | inr (val, found) ↦ rw (absent, found, other) refl
    ]
  ]

  override-own :
      (n env_name : String) (fs : FlagSet)
      → same_text n n ≡ true
      → override parse_int env explicitly n env_name fs n ≡ chosen n (some env_name) (fs n)
  unfolding override set_flag chosen
  override-own n env_name fs same = elim (Bool-cases (explicitly n)) [
    | inl given ↦ rw given refl
    | inr absent ↦ elim (Option-cases (env env_name)) [
      | inl unset ↦ rw (absent, unset) refl
      | inr (val, found) ↦ rw (absent, found, same) refl
    ]
  ]

  pub apply_env_overrides-chosen :
      (ps : EnvMap)
      → Distinct ps
      → (fs : FlagSet) (n : String)
      → apply_env_overrides parse_int env explicitly ps fs n ≡ chosen n (env_name_of n ps) (fs n)
  unfolding apply_env_overrides env_name_of
  apply_env_overrides-chosen [] d fs n = unfold chosen in refl
  apply_env_overrides-chosen (p ∷ ps) d fs n = elim (Bool-cases (same_text n p.0)) [
    | inl same ↦
        let at_p : n ≡ p.0 = (eq_iff n p.0).0 same in
        let here : override parse_int env explicitly p.0 p.1 fs n ≡ chosen n (some p.1) (fs n) =
          subst (λ m. override parse_int env explicitly m p.1 fs n ≡ chosen n (some p.1) (fs n))
            at_p (override-own n p.1 fs (subst (λ m. same_text n m ≡ true) (sym at_p) same)) in
        let no_more : env_name_of n ps ≡ none = ap (λ m. env_name_of m ps) at_p ∙ d.0 in
        let later =
          apply_env_overrides-chosen ps d.1 (override parse_int env explicitly p.0 p.1 fs) n in
        rw (same, later, no_more) (unfold chosen in here)
    | inr other ↦
        rw (other, sym (override-other n p.0 p.1 fs other))
          (apply_env_overrides-chosen ps d.1 (override parse_int env explicitly p.0 p.1 fs) n)
  ]

-- The number is what a field of the server holds, and within the bounds.
abbrev Within : ℕ → ℕ → ℤ → ℕ → Type 0
Within low high z n = (z ≡ pos n) × ((low ≤ n) × (n ≤ high))

-- What is started has the settings, uncut.
pub record Exact (fs : FlagSet) (s : Server) : Type 0 where
  pub broker_slave : Within 1 247 (number_at "slave" fs) s.broker.slave_id
  pub hub_channels : Within 2 16 (number_at "pv-channels" fs) s.hub.default_pv_channels
  pub shown_slave : s.defaults.slave_id ≡ pos s.broker.slave_id
  pub shown_channels : s.defaults.pv_channels ≡ pos s.hub.default_pv_channels
  pub framing :
      ((text_at "modbus-mode" fs ≡ "rtu") × (s.broker.use_rtu ≡ true))
      ⊎ ((text_at "modbus-mode" fs ≡ "tcp") × (s.broker.use_rtu ≡ false))
  pub dial_addr :
      s.broker.addr
      ≡ str_append
          (text_at "inverter-host" fs)
          (str_append ":" (integer_string (number_at "inverter-port" fs)))
  pub listens : s.listen_addr ≡ text_at "listen" fs
  pub shown_host : s.defaults.host ≡ text_at "inverter-host" fs
  pub shown_port : s.defaults.port ≡ number_at "inverter-port" fs

module _ (parse_int : String → ℤ) (env : String → Option String) (explicitly : String → Bool) where
  -- Each flag as the command line gives it, or else its variable, or else its declaration.
  abbrev pub chosen_settings : EnvMap → FlagSet → FlagSet
  chosen_settings ps fs n = chosen parse_int env explicitly n (env_name_of n ps) (fs n)
