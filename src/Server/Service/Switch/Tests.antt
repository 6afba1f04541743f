-- ===== src/Server/Service/Switch/Tests.antt =====
-- Tests of an activation and of a self-test, and their theorems at concrete inputs.
use rotoweave.Base.{String, true, false, ◌≡◌, refl, none, some, List, [], ◌∷◌}
use rotoweave.Server.Queue.Schema.{Db}
use rotoweave.Server.Queue.Calls.{controls, run, apply}
use rotoweave.Server.Queue.Statements.{append_log, insert_logs}
use rotoweave.Server.Queue.Dispatch.{set_queue_control, write_control}
use rotoweave.Server.Queue.Admin.{stats}
use rotoweave.Server.Service.Switch.{
  Look, Setup, Activation, activated, not_begun, broken, draining, activate_configuration,
  begin_model_self_test, wait_until, set_mode,
}
use rotoweave.Server.Service.Switch.Control.{
  IsLeft, activate_configuration-IsLeft, IsBegun, begin_model_self_test-IsBegun,
}

abbrev idle_queue : Db
idle_queue = record {
  jobs = [];
  events = [];
  logs = [];
  operational_logs = [];
  control = record {
    paused = false;
    maintenance = false;
    mode = "normal";
    revision = 0;
    updated_at = 0;
  };
}

-- The processor fails to warm up, and the queue is paused by hand meanwhile.
abbrev setup : Setup
setup = record {
  configures = true;
  profiles = "high" ∷ [];
  configured = true;
  warmed = false;
  stopped_after = false;
  others_before = [];
  others_during = (4, controls (some true) none none none) ∷ [];
  begun = 1;
  switched = 3;
  ended = 5;
}

abbrev looks : List Look
looks = record { stopped = false; cancelled = false; others = [] } ∷ []

abbrev cancelled_looks : List Look
cancelled_looks = record { stopped = false; cancelled = true; others = [] } ∷ []

abbrev mode_after : Activation → String
mode_after a = elim a [
  | activated d ↦ d.control.mode
  | not_begun d ↦ d.control.mode
  | broken d ↦ d.control.mode
  | draining d ↦ "draining"
]

ends_in_maintenance : mode_after (activate_configuration setup looks idle_queue) ≡ "maintenance"
unfolding activate_configuration wait_until set_mode run apply set_queue_control write_control stats
    append_log insert_logs
ends_in_maintenance = refl

activate_configuration-IsLeft_example :
    IsLeft setup looks idle_queue (activate_configuration setup looks idle_queue)
activate_configuration-IsLeft_example = activate_configuration-IsLeft setup looks idle_queue

begin_model_self_test-IsBegun_example :
    IsBegun (begin_model_self_test 1 2 cancelled_looks idle_queue)
begin_model_self_test-IsBegun_example = begin_model_self_test-IsBegun 1 2 cancelled_looks idle_queue
