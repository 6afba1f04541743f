-- ===== src/Client/Runtime/Tests.antt =====
-- Tests of the runtime table, and its theorems at concrete inputs.
use mathlib.Core.List.{map}
use rotoweave.Base.{ℕ, true, ◌≡◌, refl, none, some, List, [], ◌∷◌, All}
use rotoweave.Base.Order.{sort_by, insert_by}
use rotoweave.Server.Logging.{end}
use rotoweave.Client.Runtime.{
  queued, running, cancelling, completed, status_eq, Job, NewJob, create_job, list_jobs,
  changes_any, update_job, append_job_log, request_cancel, is_unfinished, recover_each,
  recover_jobs, delete_jobs_for_character,
}
use rotoweave.Client.Runtime.Runs.{
  Call, creates, cancels, recovers, begins, ends, succeeded, begin_run, end_run, run,
}
use rotoweave.Client.Runtime.Isolation.{foreign, foreign-run}
use rotoweave.Client.Runtime.Keys.{IsValid}
use rotoweave.Client.Runtime.Keys.Proof.{IsValid-run}
use rotoweave.Client.Runtime.Recovery.{is_settled, is_over, recover_jobs_lem}

abbrev basic : NewJob
basic = record {
  project_id = "p";
  job_type = "material_basic";
  source_id = some "s";
  request = end;
  cache_key = none;
  character_id = some "c";
}

abbrev first_calls : List (ℕ × Call)
first_calls = (1, creates "a" basic) ∷ (2, creates "b" basic) ∷ (3, begins "a" none "start") ∷ []

abbrev later_calls : List (ℕ × Call)
later_calls =
    (4, creates "c" basic) ∷ (5, begins "c" none "start") ∷ (6, cancels "c") ∷ (7, recovers) ∷ []

-- Two jobs of the workspace `w`, the first of them running.
abbrev busy : List Job
busy = run "w" first_calls []

-- To unfold this is to unfold the code that the tests run.
program : Unit {0}
unfolding run create_job list_jobs changes_any update_job append_job_log request_cancel
    is_unfinished recover_each recover_jobs delete_jobs_for_character begin_run end_run status_eq
    is_over sort_by insert_by
program = tt

statuses : map (λ (j : Job). j.status) busy ≡ running ∷ queued ∷ []
unfolding program
statuses = refl

cancel_waits :
    map (λ (j : Job). j.status) (request_cancel "w" "a" 9 busy).1 ≡ cancelling ∷ queued ∷ []
unfolding program
cancel_waits = refl

finished :
    map (λ (j : Job). j.status) (run "w" ((4, ends "a" (succeeded end)) ∷ []) busy)
    ≡ completed ∷ queued ∷ []
unfolding program
finished = refl

resubmitted : (recover_jobs "w" 9 busy).0 ≡ "a" ∷ "b" ∷ []
unfolding program
resubmitted = refl

newest_first : map (λ (j : Job). j.id) (list_jobs "w" 1 (some "c") busy) ≡ "b" ∷ []
unfolding program
newest_first = refl

busy-IsValid : IsValid busy
busy-IsValid = IsValid-run "w" first_calls [] tt

foreign-run_example : foreign "v" (run "v" later_calls busy) ≡ foreign "v" busy
foreign-run_example = foreign-run "v" later_calls busy

IsValid-run_example : IsValid (run "v" later_calls busy)
IsValid-run_example = IsValid-run "v" later_calls busy busy-IsValid

recover_jobs_lem_example :
    All (λ j. is_settled "w" (recover_jobs "w" 9 busy).0 j ≡ true) (recover_jobs "w" 9 busy).1
recover_jobs_lem_example = recover_jobs_lem "w" 9 busy
