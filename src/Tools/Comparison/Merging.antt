-- ===== src/Tools/Comparison/Merging.antt =====
-- `compare` merges three maps: one entry for each register of any of them, in order.
use mathlib.Core.List.{Permᴰ}
use sofar_hyd_diag.Prelude.{
  ℕ, ◌+◌, ◌≤◌, ◌≡◌, refl, sym, subst, ap, ◌∙◌, inl, inr, Bool, true, false, ◌||◌, List, [], ◌∷◌,
  map, ◌==◌, ==_iff, Bool-cases, any_of, All, All-perm, arith,
}
use sofar_hyd_diag.Prelude.Sorting.{Ascends, Sort}
use sofar_hyd_diag.Tools.Comparison.{
  RegisterMap, info_at, ComparisonEntry, entry_addr, add_addrs, entry_at, compare, is_some,
}

or_swap : (b c d : Bool) → b || (c || d) ≡ c || (b || d)
or_swap b c d = ground arith

any_of-perm : {A : Type 0} (p : A → Bool) {xs ys : List A} → Permᴰ xs ys → any_of p xs ≡ any_of p ys
any_of-perm p Permᴰ.nil = refl
any_of-perm p (Permᴰ.cons e q) = rw (e, any_of-perm p q) refl
any_of-perm p (Permᴰ.swap {a' = a'} {b' = b'} {l = l} e e') =
    rw (e, e') (or_swap (p b') (p a') (any_of p l))
any_of-perm p (Permᴰ.trans q q') = any_of-perm p q ∙ any_of-perm p q'

abbrev pub is_listed : ℕ → List ComparisonEntry → Bool
is_listed a es = any_of (λ e. a == e.addr) es

-- No entry stands twice.
abbrev NoTwice : List ComparisonEntry → Type 0
NoTwice [] = Unit
NoTwice (e ∷ es) = (is_listed e.addr es ≡ false) × NoTwice es

NoTwice-swap :
    (x y : ComparisonEntry) (l : List ComparisonEntry) → NoTwice (x ∷ y ∷ l) → NoTwice (y ∷ x ∷ l)
NoTwice-swap x y l (apart, (later, once)) = (ground arith, (ground arith, once))

NoTwice-perm : {xs ys : List ComparisonEntry} → Permᴰ xs ys → NoTwice ys → NoTwice xs
NoTwice-perm Permᴰ.nil h = tt
NoTwice-perm (Permᴰ.cons {b = b} e q) h =
    (rw (ap entry_addr e, any_of-perm (λ x. b.addr == x.addr) q) h.0, NoTwice-perm q h.1)
NoTwice-perm (Permᴰ.swap {b = b} {a' = a'} {b' = b'} {l = l} e e') h =
    subst (λ x. NoTwice (x ∷ b ∷ l)) (sym e)
      (subst (λ x. NoTwice (b' ∷ x ∷ l)) (sym e') (NoTwice-swap a' b' l h))
NoTwice-perm (Permᴰ.trans q q') h = NoTwice-perm q (NoTwice-perm q' h)

-- Each address above the one before, from `lo` on.
abbrev pub Increasing : ℕ → List ComparisonEntry → Type 0
Increasing lo [] = Unit
Increasing lo (e ∷ es) = (lo ≤ e.addr) × Increasing (e.addr + 1) es

Ascends-raise :
    (a : ℕ) (es : List ComparisonEntry)
    → is_listed a es ≡ false
    → Ascends entry_addr a es
    → Ascends entry_addr (a + 1) es
Ascends-raise a [] absent asc = tt
Ascends-raise a (e ∷ es) absent asc = (ground arith, asc.1)

Ascends-Increasing :
    (lo : ℕ) (es : List ComparisonEntry) → NoTwice es → Ascends entry_addr lo es → Increasing lo es
Ascends-Increasing lo [] once asc = tt
Ascends-Increasing lo (e ∷ es) once asc =
    (asc.0, Ascends-Increasing (e.addr + 1) es once.1 (Ascends-raise e.addr es once.0 asc.1))

add_addrs-any_of :
    (m : RegisterMap) (addrs : List ℕ) (a : ℕ)
    → any_of (λ b. a == b) (add_addrs m addrs) ≡ any_of (λ b. a == b) addrs || is_some (info_at a m)
unfolding add_addrs info_at
add_addrs-any_of [] addrs a = ground arith
add_addrs-any_of (p ∷ m) addrs a = elim (Bool-cases (any_of (λ b. p.0 == b) addrs)) [
  | inl there ↦
      rw (there, add_addrs-any_of m addrs a)
        (elim (Bool-cases (a == p.0)) [
          | inl same ↦
              let at_p : a ≡ p.0 = (==_iff a p.0).0 same in
              let listed : any_of (λ b. a == b) addrs ≡ true =
                ap (λ n. any_of (λ b. n == b) addrs) at_p ∙ there in
              rw (listed) refl
          | inr other ↦ rw other refl
        ])
  | inr absent ↦ rw (absent, add_addrs-any_of m (p.0 ∷ addrs) a) (ground arith)
]

NoTwiceAddr : List ℕ → Type 0
NoTwiceAddr [] = Unit
NoTwiceAddr (a ∷ addrs) = (any_of (λ b. a == b) addrs ≡ false) × NoTwiceAddr addrs

add_addrs-once :
    (m : RegisterMap) (addrs : List ℕ) → NoTwiceAddr addrs → NoTwiceAddr (add_addrs m addrs)
unfolding add_addrs NoTwiceAddr
add_addrs-once [] addrs h = h
add_addrs-once (p ∷ m) addrs h = elim (Bool-cases (any_of (λ b. p.0 == b) addrs)) [
  | inl there ↦ rw there (add_addrs-once m addrs h)
  | inr absent ↦ rw absent (add_addrs-once m (p.0 ∷ addrs) (absent, h))
]

module _ (xlsx v138 probes : RegisterMap) where
  -- The report has each register of the three maps once, in the order of their addresses, with what
  -- each map says of it.
  pub record IsMerge (es : List ComparisonEntry) : Type 0 where
    pub ordered : Increasing 0 es
    pub told : All (λ e. e ≡ entry_at xlsx v138 probes e.addr) es
    pub listed :
        (a : ℕ)
        → is_listed a es
          ≡ is_some (info_at a xlsx) || is_some (info_at a v138) || is_some (info_at a probes)

  map-is_listed :
      (a : ℕ) (addrs : List ℕ)
      → is_listed a (map (entry_at xlsx v138 probes) addrs) ≡ any_of (λ b. a == b) addrs
  unfolding entry_at
  map-is_listed a [] = refl
  map-is_listed a (b ∷ addrs) = ap (λ r. (a == b) || r) (map-is_listed a addrs)

  map-NoTwice :
      (addrs : List ℕ) → NoTwiceAddr addrs → NoTwice (map (entry_at xlsx v138 probes) addrs)
  unfolding entry_at NoTwiceAddr
  map-NoTwice [] h = tt
  map-NoTwice (a ∷ addrs) h = (map-is_listed a addrs ∙ h.0, map-NoTwice addrs h.1)

  map-told :
      (addrs : List ℕ)
      → All (λ e. e ≡ entry_at xlsx v138 probes e.addr) (map (entry_at xlsx v138 probes) addrs)
  unfolding entry_at
  map-told [] = tt
  map-told (a ∷ addrs) = (refl, map-told addrs)

  pub compare-IsMerge : (by : Sort entry_addr) → IsMerge (compare xlsx v138 probes by)
  unfolding compare NoTwiceAddr
  compare-IsMerge by =
      let addrs = add_addrs probes (add_addrs v138 (add_addrs xlsx [])) in
      let es = map (entry_at xlsx v138 probes) addrs in
      let once = map-NoTwice addrs (
        add_addrs-once probes (add_addrs v138 (add_addrs xlsx []))
          (add_addrs-once v138 (add_addrs xlsx []) (add_addrs-once xlsx [] tt))) in
      record {
        ordered =
            Ascends-Increasing 0 (by.sort es) (NoTwice-perm (by.sort-perm es) once)
              (by.sort-Ascends es);
        told =
            All-perm (λ e. e ≡ entry_at xlsx v138 probes e.addr) (by.sort-perm es) (map-told addrs);
        listed = λ a.
            any_of-perm (λ e. a == e.addr) (by.sort-perm es)
            ∙ map-is_listed a addrs
            ∙ rw
                (
                  add_addrs-any_of probes (add_addrs v138 (add_addrs xlsx [])) a,
                  add_addrs-any_of v138 (add_addrs xlsx []) a,
                  add_addrs-any_of xlsx [] a,
                )
                (ground arith);
      }
