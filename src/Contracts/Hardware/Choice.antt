-- ===== src/Contracts/Hardware/Choice.antt =====
-- The memory mode that a plan selects.
pub mod Earliest
use rotoweave.Base.{
  ◌+◌, ◌*◌, ◌/◌, ◌≤◌, String, Bool, true, false, ◌≡◌, refl, sym, ap, ◌∙◌, ◌&&◌, Option, none, some,
  List, [], ◌∷◌, inl, inr, Bool-cases, if◌then◌else◌, find_where, leb, arith,
}
use rotoweave.Contracts.Hardware.{
  execution_modes, Receipt, passed_of, required_vram_of, offloads, required_ram_of, Machine,
  MemoryPlan, consider_found, plan_modes, memory_mode_plan,
}

-- A mode has a passed receipt whose needs the machine meets.
abbrev pub is_affordable : Machine → List Receipt → String → Bool
is_affordable m receipts mode = elim (passed_of mode receipts) [
  | none ↦ false
  | some r ↦ leb (required_vram_of m r) m.free_vram && leb (required_ram_of mode r) m.free_ram
]

selected-consider_found :
    (m : Machine) (mode : String) (o : Option Receipt) (rest : MemoryPlan)
    → (consider_found m mode o rest).selected_mode ≡ (
        if (elim o [
          | none ↦ false
          | some r ↦
              leb (required_vram_of m r) m.free_vram && leb (required_ram_of mode r) m.free_ram
        ])
        then some mode
        else rest.selected_mode)
selected-consider_found m mode none rest = refl
selected-consider_found m mode (some r) rest =
    elim (Bool-cases
      (leb (required_vram_of m r) m.free_vram && leb (required_ram_of mode r) m.free_ram)) [
        | inl e ↦ rw e
        | inr e ↦ rw e
      ]

selected-plan_modes :
    (m : Machine) (receipts : List Receipt) (modes : List String)
    → (plan_modes m receipts modes).selected_mode ≡ find_where (is_affordable m receipts) modes
selected-plan_modes m receipts [] = refl
selected-plan_modes m receipts (mode ∷ modes) =
    selected-consider_found m mode (passed_of mode receipts) (plan_modes m receipts modes)
    ∙ rw (selected-plan_modes m receipts modes)

pub selected-first :
    (m : Machine) (receipts : List Receipt)
    → (memory_mode_plan m receipts).selected_mode
      ≡ find_where (is_affordable m receipts) execution_modes
unfolding memory_mode_plan
selected-first m receipts = selected-plan_modes m receipts execution_modes

found-is_affordable :
    (p : String → Bool) (modes : List String) (mode : String)
    → find_where p modes ≡ some mode
    → p mode ≡ true
found-is_affordable p [] mode e = cc
found-is_affordable p (x ∷ xs) mode e = elim (Bool-cases (p x)) [
  | inl q ↦
      let r : some x ≡ some mode = rw q at e in let same : x ≡ mode = cc in sym (ap p same) ∙ q
  | inr q ↦ let r : find_where p xs ≡ some mode = rw q at e in found-is_affordable p xs mode r
]

-- What the mode needs of the machine: video memory with 2048 MiB to spare, and main memory where the mode
-- offloads to it.
abbrev pub Affords : Machine → List Receipt → String → Type 0
Affords m receipts mode =
    (r : Receipt) × (passed_of mode receipts ≡ some r)
    × (r.peak_reserved + 2048 ≤ m.free_vram)
    × (r.peak_allocated + 2048 ≤ m.free_vram)
    × (offloads mode ≡ true → r.peak_working_set + 1024 ≤ m.free_ram)

receipt-Affords :
    (m : Machine) (receipts : List Receipt) (mode : String) (o : Option Receipt)
    → passed_of mode receipts ≡ o
    → (elim o [
      | none ↦ false
      | some r ↦ leb (required_vram_of m r) m.free_vram && leb (required_ram_of mode r) m.free_ram
    ])
      ≡ true
    → Affords m receipts mode
receipt-Affords m receipts mode none q e = cc
receipt-Affords m receipts mode (some r) q e = (
  r,
  q,
  ground (arith, e),
  ground (arith, e),
  λ o.
      (let k : (leb (required_vram_of m r) m.free_vram
              && leb ((5 * r.peak_working_set + 3) / 4 + 1024) m.free_ram)
            ≡ true =
          rw o at e in
        ground (arith, k)),
)

-- A selected mode has a passed receipt, and its measured peaks leave at least 2048 MiB of the free video
-- memory; where it offloads to main memory, its working set leaves at least 1024 MiB of that.
pub memory_mode_plan-Affords :
    (m : Machine) (receipts : List Receipt) (mode : String)
    → (memory_mode_plan m receipts).selected_mode ≡ some mode
    → Affords m receipts mode
memory_mode_plan-Affords m receipts mode e =
    receipt-Affords m receipts mode (passed_of mode receipts) refl (
      found-is_affordable (is_affordable m receipts) execution_modes mode
        (sym (selected-first m receipts) ∙ e))
