-- ===== src/Contracts/Hardware/Devices.antt =====
-- The device that a probe selects.
use rotoweave.Base.{
  ℕ, String, Bool, true, false, ◌≡◌, refl, ap, ◌∙◌, ◌&&◌, Option, none, some, List, [], ◌∷◌, inl,
  inr, Bool-cases, str_eq, if◌then◌else◌, any_where, find_where, not, str_eq_refl, All, arith,
}
use rotoweave.Base.Order.Laws.{IsSorted-sort_by, All-sort_by_inv, any-sort_by, IsSorted}
use rotoweave.Contracts.Hardware.{
  CudaDevice, first_device, has_uuid, or_first, selected, read_lines, has_invalid, ranks_before,
  ranked, preferred_or, probe_devices, probe_cuda_hardware,
}

ranks_before_total : (a b : CudaDevice) → ranks_before a b ≡ false → ranks_before b a ≡ true
ranks_before_total a b e = ground (arith, e)

ranks_before_trans :
    (a b c : CudaDevice)
    → ranks_before a b ≡ true
    → ranks_before b c ≡ true
    → ranks_before a c ≡ true
ranks_before_trans a b c e f = ground (arith, e, f)

ranks_before_refl : (a : CudaDevice) → ranks_before a a ≡ true
ranks_before_refl a = ground arith

-- The preference names a device of the list.
abbrev pub is_known : Option String → List CudaDevice → Bool
is_known none ds = false
is_known (some u) ds = not (str_eq u "") && any_where (has_uuid u) ds

abbrev pub is_preferred : Option String → CudaDevice → Bool
is_preferred none d = false
is_preferred (some u) d = has_uuid u d

-- The device is the preferred one where the list has it, and else one that no other ranks before.
abbrev pub IsChoice : Option String → List CudaDevice → CudaDevice → Type 0
IsChoice preferred ds d =
    (is_known preferred ds ≡ true → is_preferred preferred d ≡ true)
    × (is_known preferred ds ≡ false → All (λ e. ranks_before d e ≡ true) ds)

abbrev selected_by : String → List CudaDevice → Option CudaDevice
selected_by u ds = if str_eq u "" then first_device ds else or_first (find_where (has_uuid u) ds) ds

selected_by-first : (d : CudaDevice) (ds : List CudaDevice) → selected_by d.uuid (d ∷ ds) ≡ some d
selected_by-first d ds = elim (Bool-cases (str_eq d.uuid "")) [
  | inl e ↦ rw e
  | inr e ↦ rw e (rw (str_eq_refl d.uuid))
]

find-any_where :
    (p : CudaDevice → Bool) (ds : List CudaDevice)
    → any_where p ds ≡ true
    → (d : CudaDevice) × (find_where p ds ≡ some d) × (p d ≡ true)
find-any_where p [] e = cc
find-any_where p (x ∷ xs) e = elim (Bool-cases (p x)) [
  | inl q ↦ (x, rw q, q)
  | inr q ↦
      let r : any_where p xs ≡ true = rw q at e in
      let (d, f, h) = find-any_where p xs r in (d, rw q f, h)
]

module _ (r : CudaDevice) (rest : List CudaDevice)
    (best : All (λ e. ranks_before r e ≡ true) (r ∷ rest)) where
  abbrev Selects : Option String → Type 0
  Selects preferred =
      (d : CudaDevice) × (selected_by (preferred_or preferred (r ∷ rest) r.uuid) (r ∷ rest)
        ≡ some d)
      × IsChoice preferred (r ∷ rest) d

  with_uuid :
      (preferred : Option String) (u : String) (d : CudaDevice)
      → preferred_or preferred (r ∷ rest) r.uuid ≡ u
      → selected_by u (r ∷ rest) ≡ some d
      → IsChoice preferred (r ∷ rest) d
      → Selects preferred
  with_uuid preferred u d e f h = (d, ap (λ v. selected_by v (r ∷ rest)) e ∙ f, h)

  takes_first :
      (preferred : Option String)
      → preferred_or preferred (r ∷ rest) r.uuid ≡ r.uuid
      → is_known preferred (r ∷ rest) ≡ false
      → Selects preferred
  takes_first preferred e h =
      with_uuid preferred r.uuid r e (selected_by-first r rest) ((λ k. cc), λ k. best)

  selects : (preferred : Option String) → Selects preferred
  selects none = takes_first none refl refl
  selects (some u) = elim (Bool-cases (str_eq u "")) [
    | inl e ↦ takes_first (some u) (rw e) (rw e)
    | inr e ↦ elim (Bool-cases (any_where (has_uuid u) (r ∷ rest))) [
      | inl q ↦
          let (d, f, h) = find-any_where (has_uuid u) (r ∷ rest) q in
          with_uuid (some u) u d (rw (e, q)) (rw (e, f))
            ((λ k. h), λ k. (let known : is_known (some u) (r ∷ rest) ≡ true = rw (e, q) in cc))
      | inr q ↦ takes_first (some u) (rw (e, q)) (rw (e, q))
    ]
  ]

is_known-ranked :
    (preferred : Option String) (ds : List CudaDevice)
    → is_known preferred (ranked ds) ≡ is_known preferred ds
is_known-ranked none ds = refl
is_known-ranked (some u) ds = rw (any-sort_by ranks_before (has_uuid u) ds)

IsChoice-ranked :
    (preferred : Option String) (ds : List CudaDevice) (d : CudaDevice)
    → IsChoice preferred (ranked ds) d
    → IsChoice preferred ds d
IsChoice-ranked preferred ds d h = (
  (λ k. h.0 (is_known-ranked preferred ds ∙ k)),
  λ k.
      All-sort_by_inv ranks_before (λ e. ranks_before d e ≡ true) ds
        (h.1 (is_known-ranked preferred ds ∙ k)),
)

select_ranked :
    (preferred : Option String) (invalid : Bool) (x : CudaDevice) (xs rs : List CudaDevice)
    → ranked (x ∷ xs) ≡ rs
    → (d : CudaDevice) × (selected (probe_devices preferred invalid (x ∷ xs)) ≡ some d)
      × IsChoice preferred (x ∷ xs) d
select_ranked preferred invalid x xs [] q =
    let r : any_where (λ e. true) (ranked (x ∷ xs)) ≡ true =
      any-sort_by ranks_before (λ e. true) (x ∷ xs) in
    let k : false ≡ true = rw q at r in cc
select_ranked preferred invalid x xs (r ∷ rest) q =
    let sorted : IsSorted ranks_before (ranked (x ∷ xs)) =
      IsSorted-sort_by ranks_before ranks_before_total ranks_before_trans (x ∷ xs) in
    let s : IsSorted ranks_before (r ∷ rest) = rw q at sorted in
    let (d, f, h) = selects r rest (ranks_before_refl r, s.0) preferred in
    let c : IsChoice preferred (ranked (x ∷ xs)) d = rw q h in
    (d, rw q f, IsChoice-ranked preferred (x ∷ xs) d c)

-- Where a line of the output is read as a device, the probe selects a device: the preferred one if some
-- line has it, and else one with the most memory, of the smallest index among those.
pub probe_cuda_hardware-IsChoice :
    (parse_int : String → Option ℕ) (preferred : Option String) (lines : List (List String))
    (x : CudaDevice) (xs : List CudaDevice)
    → read_lines parse_int lines ≡ x ∷ xs
    → (d : CudaDevice) × (selected (probe_cuda_hardware parse_int preferred lines) ≡ some d)
      × IsChoice preferred (x ∷ xs) d
unfolding probe_cuda_hardware
probe_cuda_hardware-IsChoice parse_int preferred lines x xs e =
    rw e (select_ranked preferred (has_invalid parse_int lines) x xs (ranked (x ∷ xs)) refl)
