-- ===== src/Contracts/Hardware.antt =====
-- The choice of a device and of a memory mode: RotoWeaveContracts/contracts/hardware.py. Amounts of memory
-- are whole MiB: a peak is the integer that the source truncates it to.
pub mod Choice
pub mod Devices
mod Tests
use rotoweave.Base.{
  ℕ, ◌+◌, ◌-◌, ◌*◌, ◌/◌, min, max, String, Bool, true, false, ◌&&◌, ◌||◌, Option, none, some, List,
  [], ◌∷◌, str_eq, if◌then◌else◌, any_where, find_where, leb, ltb, ◌==◌,
}
use rotoweave.Base.Order.{sort_by}
use rotoweave.Base.Text.{codes, casefold, codes_eq}

pub record CudaDevice : Type 0 where
  pub index : ℕ
  pub uuid : String
  pub name : String
  pub driver_version : String
  pub compute_capability : Option String
  pub vram_total_mib : ℕ
  pub vram_used_mib : ℕ

-- The subtraction stops at 0, as `max(0, …)` does.
abbrev pub vram_free_mib : CudaDevice → ℕ
vram_free_mib d = d.vram_total_mib - d.vram_used_mib

pub record HardwareProbe : Type 0 where
  pub devices : List CudaDevice
  pub selected_uuid : Option String
  pub is_partial : Bool
  pub reason : Option String

abbrev pub first_device : List CudaDevice → Option CudaDevice
first_device [] = none
first_device (d ∷ ds) = some d

abbrev pub has_uuid : String → CudaDevice → Bool
has_uuid u d = str_eq d.uuid u

abbrev pub or_first : Option CudaDevice → List CudaDevice → Option CudaDevice
or_first (some d) ds = some d
or_first none ds = first_device ds

-- `HardwareProbe.selected`
abbrev pub selected : HardwareProbe → Option CudaDevice
selected p = elim p.selected_uuid [
  | none ↦ first_device p.devices
  | some u ↦
      if str_eq u ""
      then first_device p.devices
      else or_first (find_where (has_uuid u) p.devices) p.devices
]

abbrev pub unavailable : String → HardwareProbe
unavailable reason = record {
  devices = [];
  selected_uuid = none;
  is_partial = false;
  reason = some reason;
}

abbrev pub is_unsupported : String → Bool
is_unsupported s =
    codes_eq (casefold (codes s)) (codes "n/a")
    || codes_eq (casefold (codes s)) (codes "[not supported]")

abbrev pub capability : String → Option String
capability s = if str_eq s "" || is_unsupported s then none else some s

abbrev pub device_of :
    Option ℕ → String → String → String → String → Option ℕ → Option ℕ → Option CudaDevice
device_of (some i) u n v c (some total) (some used) = some (record {
  index = i;
  uuid = u;
  name = n;
  driver_version = v;
  compute_capability = capability c;
  vram_total_mib = total;
  vram_used_mib = used;
})
device_of (some i) u n v c (some total) none = none
device_of (some i) u n v c none used = none
device_of none u n v c total used = none

-- One line of the tool's output that is not blank, split at its commas and stripped, with numbers of 0 or
-- more; `parse_int` is `_parse_int`, with no
-- value where it raises.
unfoldable pub read_line : (String → Option ℕ) → List String → Option CudaDevice
unfolding codes_eq casefold
read_line parse_int (i ∷ u ∷ n ∷ v ∷ c ∷ total ∷ used ∷ []) =
    device_of (parse_int i) u n v c (parse_int total) (parse_int used)
read_line parse_int values = none

abbrev pub cons_some : Option CudaDevice → List CudaDevice → List CudaDevice
cons_some none ds = ds
cons_some (some d) ds = d ∷ ds

abbrev pub read_lines : (String → Option ℕ) → List (List String) → List CudaDevice
read_lines parse_int [] = []
read_lines parse_int (l ∷ ls) = cons_some (read_line parse_int l) (read_lines parse_int ls)

abbrev pub has_invalid : (String → Option ℕ) → List (List String) → Bool
has_invalid parse_int [] = false
has_invalid parse_int (l ∷ ls) =
    (elim (read_line parse_int l) [ none ↦ true | some d ↦ false ]) || has_invalid parse_int ls

-- The sorting key: more memory first, then the smaller index.
abbrev pub ranks_before : CudaDevice → CudaDevice → Bool
ranks_before a b =
    ltb b.vram_total_mib a.vram_total_mib
    || (b.vram_total_mib == a.vram_total_mib && leb a.index b.index)

abbrev pub ranked : List CudaDevice → List CudaDevice
ranked ds = sort_by ranks_before ds

abbrev pub uuid_of_first : CudaDevice → List CudaDevice → String
uuid_of_first d [] = d.uuid
uuid_of_first d (e ∷ es) = e.uuid

abbrev pub preferred_or : Option String → List CudaDevice → String → String
preferred_or none ds u = u
preferred_or (some p) ds u = if str_eq p "" then u else if any_where (has_uuid p) ds then p else u

abbrev pub probe_devices : Option String → Bool → List CudaDevice → HardwareProbe
probe_devices preferred invalid [] =
    unavailable (if invalid then "invalid-nvidia-smi-output" else "no-nvidia-device")
probe_devices preferred invalid (d ∷ ds) = record {
  devices = ranked (d ∷ ds);
  selected_uuid =
      some (preferred_or preferred (ranked (d ∷ ds)) (uuid_of_first d (ranked (d ∷ ds))));
  is_partial = invalid;
  reason = none;
}

-- `probe_cuda_hardware`, of the lines that the tool prints.
unfoldable pub probe_cuda_hardware :
    (String → Option ℕ) → Option String → List (List String) → HardwareProbe
unfolding read_line
probe_cuda_hardware parse_int preferred lines =
    probe_devices preferred (has_invalid parse_int lines) (read_lines parse_int lines)

abbrev pub execution_modes : List String
execution_modes = "full" ∷ "balanced" ∷ "constrained" ∷ "minimal" ∷ []

-- A fifth, rounded up, between 2048 and 6144.
abbrev pub vram_headroom_mib : ℕ → ℕ
vram_headroom_mib total = max 2048 (min 6144 ((total + 4) / 5))

pub record Receipt : Type 0 where
  pub mode : String
  pub state : String
  pub peak_reserved : ℕ
  pub peak_allocated : ℕ
  pub peak_working_set : ℕ

abbrev pub is_passed : String → Receipt → Bool
is_passed mode r = str_eq r.mode mode && str_eq r.state "passed"

-- `by_mode.get(mode)`: the last receipt of a mode replaces the earlier ones.
abbrev pub passed_of : String → List Receipt → Option Receipt
passed_of mode [] = none
passed_of mode (r ∷ rs) = elim (passed_of mode rs) [
  | some q ↦ some q
  | none ↦ if is_passed mode r then some r else none
]

pub record Candidate : Type 0 where
  pub mode : String
  pub required_vram : ℕ
  pub required_ram : ℕ
  pub fits_vram : Bool
  pub fits_ram : Bool

pub record Machine : Type 0 where
  pub total_vram : ℕ
  pub free_vram : ℕ
  pub free_ram : ℕ

abbrev pub peak_vram : Receipt → ℕ
peak_vram r = max r.peak_reserved r.peak_allocated

abbrev pub required_vram_of : Machine → Receipt → ℕ
required_vram_of m r = peak_vram r + vram_headroom_mib m.total_vram

abbrev pub offloads : String → Bool
offloads mode = str_eq mode "constrained" || str_eq mode "minimal"

-- Five quarters of the peak, rounded up, and 1024.
abbrev pub required_ram_of : String → Receipt → ℕ
required_ram_of mode r = if offloads mode then (5 * r.peak_working_set + 3) / 4 + 1024 else 0

abbrev pub candidate : Machine → String → Receipt → Candidate
candidate m mode r = record {
  mode = mode;
  required_vram = required_vram_of m r;
  required_ram = required_ram_of mode r;
  fits_vram = leb (required_vram_of m r) m.free_vram;
  fits_ram = leb (required_ram_of mode r) m.free_ram;
}

pub record MemoryPlan : Type 0 where
  pub selected_mode : Option String
  pub headroom : ℕ
  pub candidates : List Candidate

abbrev pub no_mode : Machine → MemoryPlan
no_mode m = record {
  selected_mode = none;
  headroom = vram_headroom_mib m.total_vram;
  candidates = [];
}

abbrev pub consider : Candidate → MemoryPlan → MemoryPlan
consider c rest =
    if c.fits_vram && c.fits_ram
    then record rest { selected_mode = some c.mode; candidates = c ∷ [] }
    else record rest { candidates = c ∷ rest.candidates }

abbrev pub consider_found : Machine → String → Option Receipt → MemoryPlan → MemoryPlan
consider_found m mode none rest = rest
consider_found m mode (some r) rest = consider (candidate m mode r) rest

abbrev pub plan_modes : Machine → List Receipt → List String → MemoryPlan
plan_modes m receipts [] = no_mode m
plan_modes m receipts (mode ∷ modes) =
    consider_found m mode (passed_of mode receipts) (plan_modes m receipts modes)

unfoldable pub memory_mode_plan : Machine → List Receipt → MemoryPlan
memory_mode_plan m receipts = plan_modes m receipts execution_modes
