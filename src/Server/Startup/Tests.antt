-- ===== src/Server/Startup/Tests.antt =====
-- Tests of the tracker, and its theorems at concrete inputs.
use rotoweave.Base.{ℕ, String, ◌≡◌, refl, none, some, List, [], ◌∷◌, str_eq, any_where, is_some}
use rotoweave.Base.Signed.{pos, negsuc}
use rotoweave.Server.Startup.{
  StageState, running, passed, failed, Update, tracker, starts, ends, succeeds, is_failed,
  update_stage, update, snapshot_state, completed_stages,
}
use rotoweave.Server.Startup.Progress.{run, ids, IsTimed, run-IsTimed, update_lem}

abbrev to_state : String → StageState → Update
to_state i s = record {
  stage_id = i;
  state = s;
  detail = none;
  error = none;
  files_verified = some (negsuc 2);
  files_total = some (pos 4);
}

abbrev started : List (ℕ × Update)
started =
    (1, to_state "configuration" passed)
    ∷ (2, to_state "runtime" running)
    ∷ (3, to_state "unknown" passed)
    ∷ (4, to_state "ready" passed)
    ∷ []

-- To unfold this is to unfold the code that the tests run.
program : Unit {0}
unfolding run update update_stage starts ends succeeds is_failed
program = tt

is_started : snapshot_state (run started (tracker 0)) ≡ "ready"
unfolding program
is_started = refl

runs_again : snapshot_state (run ((2, to_state "runtime" failed) ∷ started) (tracker 0)) ≡ "ready"
unfolding program
runs_again = refl

two_passed : completed_stages (run started (tracker 0)) ≡ 2
unfolding program
two_passed = refl

run-IsTimed_example : IsTimed (run started (tracker 0))
run-IsTimed_example = run-IsTimed started 0

update_lem_example :
    is_some (update (to_state "unknown" passed) 3 (tracker 0))
    ≡ any_where (λ i. str_eq i "unknown") (ids (tracker 0).stages)
update_lem_example = update_lem (to_state "unknown" passed) 3 (tracker 0)
