-- ===== src/Contracts/Hardware/Tests.antt =====
-- Tests of the memory plan and of the probe, and their theorems at concrete inputs.
use rotoweave.Base.{ℕ, ◌≡◌, refl, String, Option, none, some, List, [], ◌∷◌, str_eq, if◌then◌else◌}
use rotoweave.Base.Order.{sort_by, insert_by}
use rotoweave.Base.Text.{codes_eq, casefold}
use rotoweave.Contracts.Hardware.{
  CudaDevice, selected, read_line, read_lines, probe_cuda_hardware, Receipt, Machine,
  memory_mode_plan,
}
use rotoweave.Contracts.Hardware.Choice.{Affords, memory_mode_plan-Affords}
use rotoweave.Contracts.Hardware.Choice.Earliest.{Earliest, CanRun, memory_mode_plan-Earliest}
use rotoweave.Contracts.Hardware.Devices.{IsChoice, probe_cuda_hardware-IsChoice}

abbrev receipt : String → String → ℕ → Receipt
receipt mode state peak = record {
  mode = mode;
  state = state;
  peak_reserved = peak;
  peak_allocated = peak;
  peak_working_set = 8_000;
}

abbrev receipts : List Receipt
receipts =
    receipt "full" "passed" 20_000
    ∷ receipt "balanced" "failed" 9_000
    ∷ receipt "constrained" "passed" 6_000
    ∷ []

abbrev machine : Machine
machine = record { total_vram = 12_288; free_vram = 11_000; free_ram = 32_000 }

-- The full mode does not fit, and the balanced one did not pass.
selects_constrained : (memory_mode_plan machine receipts).selected_mode ≡ some "constrained"
unfolding memory_mode_plan
selects_constrained = refl

memory_mode_plan-Earliest_example :
    Earliest
      (CanRun machine receipts)
      ("full" ∷ "balanced" ∷ "constrained" ∷ "minimal" ∷ [])
      (memory_mode_plan machine receipts).selected_mode
memory_mode_plan-Earliest_example = memory_mode_plan-Earliest machine receipts

memory_mode_plan-Affords_example : Affords machine receipts "constrained"
memory_mode_plan-Affords_example =
    memory_mode_plan-Affords machine receipts "constrained" selects_constrained

-- Reads the numbers that the test has.
abbrev parse_int : String → Option ℕ
parse_int s =
    if str_eq s "0"
    then some 0
    else if str_eq s "1"
    then some 1
    else if str_eq s "8192"
    then some 8_192
    else if str_eq s "24576"
    then some 24_576
    else none

abbrev line : String → String → String → List String
line index uuid total = index ∷ uuid ∷ "GPU" ∷ "550.1" ∷ "8.9" ∷ total ∷ "0" ∷ []

abbrev lines : List (List String)
lines = line "0" "a" "8192" ∷ line "x" "b" "8192" ∷ line "1" "c" "24576" ∷ []

abbrev device : ℕ → String → ℕ → CudaDevice
device i u total = record {
  index = i;
  uuid = u;
  name = "GPU";
  driver_version = "550.1";
  compute_capability = some "8.9";
  vram_total_mib = total;
  vram_used_mib = 0;
}

reads_two : read_lines parse_int lines ≡ device 0 "a" 8_192 ∷ device 1 "c" 24_576 ∷ []
unfolding read_line codes_eq casefold
reads_two = refl

selects_largest :
    selected (probe_cuda_hardware parse_int (some "b") lines) ≡ some (device 1 "c" 24_576)
unfolding probe_cuda_hardware read_line sort_by insert_by codes_eq casefold
selects_largest = refl

probe_cuda_hardware-IsChoice_example :
    (d : CudaDevice) × (selected (probe_cuda_hardware parse_int (some "a") lines) ≡ some d)
    × IsChoice (some "a") (device 0 "a" 8_192 ∷ device 1 "c" 24_576 ∷ []) d
probe_cuda_hardware-IsChoice_example =
    probe_cuda_hardware-IsChoice parse_int (some "a") lines (device 0 "a" 8_192)
      (device 1 "c" 24_576 ∷ []) reads_two
