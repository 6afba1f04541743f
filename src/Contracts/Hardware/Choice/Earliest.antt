-- ===== src/Contracts/Hardware/Choice/Earliest.antt =====
-- The memory mode that a plan selects is the earliest that the machine can afford.
use rotoweave.Base.{
  ◌+◌, ◌*◌, ◌/◌, ◌≤◌, max, min, String, Bool, true, false, ◌≡◌, refl, sym, ap, ◌∙◌, subst, ◌&&◌,
  Option, none, some, List, [], ◌∷◌, ◌++◌, inl, inr, ◌⊎◌, Bool-cases, find_where, leb, arith, All,
  str_eq, str_eq_refl, eq_iff,
}
use rotoweave.Contracts.Hardware.{
  Receipt, is_passed, passed_of, required_vram_of, required_ram_of, Machine, memory_mode_plan,
  execution_modes,
}
use rotoweave.Contracts.Hardware.Choice.{is_affordable, selected-first}

-- `r` is a passed receipt of the mode.
abbrev pub IsPassed : String → Receipt → Type 0
IsPassed mode r = (r.mode ≡ mode) × (r.state ≡ "passed")

-- The last passed receipt of the mode.
abbrev pub IsLast : String → List Receipt → Receipt → Type 0
IsLast mode receipts r =
    (before : List Receipt) × (after : List Receipt) × (receipts ≡ before ++ r ∷ after)
    × IsPassed mode r
    × All (λ x. ¬ (IsPassed mode x)) after

-- A fifth of the video memory, rounded up, but between 2048 and 6144 MiB, is left of the free part; a mode
-- that offloads wants five quarters of the working set, rounded up, and 1024 MiB of main memory.
abbrev pub Meets : Machine → String → Receipt → Type 0
Meets m mode r =
    (r.peak_reserved + max 2048 (min 6144 ((m.total_vram + 4) / 5)) ≤ m.free_vram)
    × (r.peak_allocated + max 2048 (min 6144 ((m.total_vram + 4) / 5)) ≤ m.free_vram)
    × ((mode ≡ "constrained") ⊎ (mode ≡ "minimal")
        → (5 * r.peak_working_set + 3) / 4 + 1024 ≤ m.free_ram)

abbrev pub CanRun : Machine → List Receipt → String → Type 0
CanRun m receipts mode = (r : Receipt) × IsLast mode receipts r × Meets m mode r

-- The first of a list of which `P` holds, or none where it holds of none.
abbrev pub Earliest : (String → Type 0) → List String → Option String → Type 0
Earliest P modes none = All (λ x. ¬ (P x)) modes
Earliest P modes (some mode) =
    (before : List String) × (after : List String) × (modes ≡ before ++ mode ∷ after)
    × P mode
    × All (λ x. ¬ (P x)) before

is_passed-IsPassed : (mode : String) (r : Receipt) → is_passed mode r ≡ true → IsPassed mode r
is_passed-IsPassed mode r e = ground (arith, eq_iff r.mode mode, eq_iff r.state "passed")

IsPassed-is_passed : (mode : String) (r : Receipt) → IsPassed mode r → is_passed mode r ≡ true
IsPassed-is_passed mode r h = rw (h.0, h.1) (rw (str_eq_refl mode))

not-IsPassed : (mode : String) (r : Receipt) → is_passed mode r ≡ false → ¬ (IsPassed mode r)
not-IsPassed mode r e h =
    let clash : true ≡ false = sym (IsPassed-is_passed mode r h) ∙ e in absurd cc

none-All :
    (mode : String) (rs : List Receipt)
    → passed_of mode rs ≡ none
    → All (λ x. ¬ (IsPassed mode x)) rs
none-All mode [] e = tt
none-All mode (r ∷ rs) e = go (passed_of mode rs) refl (none-All mode rs)
  where
    go :
        (o : Option Receipt)
        → passed_of mode rs ≡ o
        → (passed_of mode rs ≡ none → All (λ x. ¬ (IsPassed mode x)) rs)
        → All (λ x. ¬ (IsPassed mode x)) (r ∷ rs)
    go (some q) h later = let clash : some q ≡ none = rw h at e in absurd cc
    go none h later = elim (Bool-cases (is_passed mode r)) [
      | inl p ↦ let clash : some r ≡ none = rw (h, p) at e in absurd cc
      | inr p ↦ (not-IsPassed mode r p, later h)
    ]

All-none :
    (mode : String) (rs : List Receipt)
    → All (λ x. ¬ (IsPassed mode x)) rs
    → passed_of mode rs ≡ none
All-none mode [] h = refl
All-none mode (r ∷ rs) h = elim (Bool-cases (is_passed mode r)) [
  | inl p ↦ absurd (h.0 (is_passed-IsPassed mode r p))
  | inr p ↦ rw (All-none mode rs h.1, p)
]

passed_of-IsLast :
    (mode : String) (rs : List Receipt) (q : Receipt)
    → passed_of mode rs ≡ some q
    → IsLast mode rs q
passed_of-IsLast mode [] q e = cc
passed_of-IsLast mode (r ∷ rs) q e = go (passed_of mode rs) refl (passed_of-IsLast mode rs q)
  where
    go :
        (o : Option Receipt)
        → passed_of mode rs ≡ o
        → (passed_of mode rs ≡ some q → IsLast mode rs q)
        → IsLast mode (r ∷ rs) q
    go (some x) h later =
        let found : some x ≡ some q = rw h at e in
        let (before, after, split, p, rest) = later (h ∙ found) in
        (r ∷ before, after, ap (λ xs. r ∷ xs) split, p, rest)
    go none h later = elim (Bool-cases (is_passed mode r)) [
      | inl p ↦
          let found : some r ≡ some q = rw (h, p) at e in
          let same : r ≡ q = cc in
          subst (IsLast mode (r ∷ rs)) same
            ([], rs, refl, is_passed-IsPassed mode r p, none-All mode rs h)
      | inr p ↦ let clash : none ≡ some q = rw (h, p) at e in absurd cc
    ]

last-passed_of :
    (mode : String) (before : List Receipt) (q : Receipt) (after : List Receipt)
    → IsPassed mode q
    → All (λ x. ¬ (IsPassed mode x)) after
    → passed_of mode (before ++ q ∷ after) ≡ some q
last-passed_of mode [] q after p h = rw (All-none mode after h, IsPassed-is_passed mode q p)
last-passed_of mode (r ∷ before) q after p h = rw (last-passed_of mode before q after p h)

IsLast-passed_of :
    (mode : String) (rs : List Receipt) (q : Receipt)
    → IsLast mode rs q
    → passed_of mode rs ≡ some q
IsLast-passed_of mode rs q (before, after, split, p, h) =
    ap (passed_of mode) split ∙ last-passed_of mode before q after p h

needs-ram :
    (m : Machine) (mode : String) (r : Receipt)
    → leb (required_ram_of mode r) m.free_ram ≡ true
    → (mode ≡ "constrained") ⊎ (mode ≡ "minimal")
    → (5 * r.peak_working_set + 3) / 4 + 1024 ≤ m.free_ram
needs-ram m mode r e (inl q) =
    let k : leb ((5 * r.peak_working_set + 3) / 4 + 1024) m.free_ram ≡ true = rw q at e in
    ground (arith, k)
needs-ram m mode r e (inr q) =
    let k : leb ((5 * r.peak_working_set + 3) / 4 + 1024) m.free_ram ≡ true = rw q at e in
    ground (arith, k)

needs-Meets :
    (m : Machine) (mode : String) (r : Receipt)
    → (leb (required_vram_of m r) m.free_vram && leb (required_ram_of mode r) m.free_ram) ≡ true
    → Meets m mode r
needs-Meets m mode r e =
    let vram : leb (required_vram_of m r) m.free_vram ≡ true = ground (arith, e) in
    let ram : leb (required_ram_of mode r) m.free_ram ≡ true = ground (arith, e) in
    (ground (arith, vram), ground (arith, vram), needs-ram m mode r ram)

Meets-ram :
    (m : Machine) (mode : String) (r : Receipt)
    → Meets m mode r
    → leb (required_ram_of mode r) m.free_ram ≡ true
Meets-ram m mode r h = elim (Bool-cases (str_eq mode "constrained")) [
  | inl e ↦
      let k = h.2 (inl (ground (arith, e, eq_iff mode "constrained"))) in rw e (ground (arith, k))
  | inr e ↦ elim (Bool-cases (str_eq mode "minimal")) [
    | inl f ↦
        let k = h.2 (inr (ground (arith, f, eq_iff mode "minimal"))) in
        rw (e, f) (ground (arith, k))
    | inr f ↦ rw (e, f) (ground arith)
  ]
]

Meets-needs :
    (m : Machine) (mode : String) (r : Receipt)
    → Meets m mode r
    → (leb (required_vram_of m r) m.free_vram && leb (required_ram_of mode r) m.free_ram) ≡ true
Meets-needs m mode r h =
    let vram : leb (required_vram_of m r) m.free_vram ≡ true = ground (arith, h.0, h.1) in
    rw (vram, Meets-ram m mode r h)

is_affordable-CanRun :
    (m : Machine) (rs : List Receipt) (mode : String)
    → is_affordable m rs mode ≡ true
    → CanRun m rs mode
is_affordable-CanRun m rs mode e = go (passed_of mode rs) refl
  where
    go : (o : Option Receipt) → passed_of mode rs ≡ o → CanRun m rs mode
    go none h = let clash : false ≡ true = rw (is_affordable, h) at e in absurd cc
    go (some r) h =
        (r, passed_of-IsLast mode rs r h, needs-Meets m mode r (rw (is_affordable, h) at e))

CanRun-is_affordable :
    (m : Machine) (rs : List Receipt) (mode : String)
    → CanRun m rs mode
    → is_affordable m rs mode ≡ true
CanRun-is_affordable m rs mode (r, last, meets) =
    rw (is_affordable, IsLast-passed_of mode rs r last) (Meets-needs m mode r meets)

module _ (p : String → Bool) (P : String → Type 0) (sound : (x : String) → p x ≡ true → P x)
    (complete : (x : String) → P x → p x ≡ true) where
  refuted : (x : String) → p x ≡ false → ¬ (P x)
  refuted x e h = let clash : true ≡ false = sym (complete x h) ∙ e in absurd cc

  find-Earliest : (xs : List String) → Earliest P xs (find_where p xs)
  find-Earliest [] = tt
  find-Earliest (x ∷ xs) = elim (Bool-cases (p x)) [
    | inl e ↦ rw e ([], xs, refl, sound x e, tt)
    | inr e ↦ rw e (behind x (refuted x e) xs (find_where p xs) (find-Earliest xs))
  ]
    where
      behind :
          (x : String)
          → ¬ (P x)
          → (xs : List String) (o : Option String) → Earliest P xs o
          → Earliest P (x ∷ xs) o
      behind x fails xs none h = (fails, h)
      behind x fails xs (some mode) (before, after, split, q, rest) =
          (x ∷ before, after, ap (λ ys. x ∷ ys) split, q, (fails, rest))

-- The selected mode is the first of full, balanced, constrained and minimal whose last passed receipt
-- meets what the machine has free, and none is selected where there is no such mode. The video memory has
-- to hold the larger peak and a fifth of its total, rounded up, but 2048 to 6144 MiB; for constrained and
-- minimal, the main memory has to hold five quarters of the working set, rounded up, and 1024 MiB.
pub memory_mode_plan-Earliest :
    (m : Machine) (receipts : List Receipt)
    → Earliest
        (CanRun m receipts)
        ("full" ∷ "balanced" ∷ "constrained" ∷ "minimal" ∷ [])
        (memory_mode_plan m receipts).selected_mode
memory_mode_plan-Earliest m receipts =
    subst (Earliest (CanRun m receipts) execution_modes) (sym (selected-first m receipts)) (
      find-Earliest (is_affordable m receipts) (CanRun m receipts) (is_affordable-CanRun m receipts)
        (CanRun-is_affordable m receipts) execution_modes)
