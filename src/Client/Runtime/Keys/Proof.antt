-- ===== src/Client/Runtime/Keys/Proof.antt =====
-- Every call keeps the identifiers and the bound of the logs.
use rotoweave.Base.{
  ℕ, ◌≤◌, String, ◌≡◌, refl, not, ◌&&◌, Option, none, some, List, [], ◌∷◌, ◌++◌, inl, inr,
  Bool-cases, length, update_where, any_where, arith,
}
use rotoweave.Client.Runtime.{
  Status, queued, running, cancelling, completed, failed, cancelled, status_eq, Job, NewJob, Line,
  Changes, in_workspace, has_id, owned, get_job, job_row, create_job, cancelled_row, of_character,
  cancelling_row, given_up_row, in_status, changes_any, changed, update_job, append_job_log,
  cancel_status, request_cancel, recovered_row, recover_each, recover_jobs, append_found,
  cancel_found, log_row, last, unfinished_ids, delete_jobs_for_character,
}
use rotoweave.Client.Runtime.Runs.{
  Failure, starting_changes, rejected_changes, outcome_changes, outcome_level, outcome_message,
  Call, creates, updates, notes, cancels, recovers, forgets, begins, ends, start_job, begin_run,
  start_found, end_run, apply, run,
}
use rotoweave.Client.Runtime.Keys.{
  IsValid, IsValid-append, IsValid-update, IsValid-select, length-last,
}

module _ (w : String) where
  IsValid-owned :
      (i : String) (f : Job → Job) (db : List Job)
      → ((j : Job) → (f j).id ≡ j.id)
      → ((j : Job) → length j.logs ≤ 500 → length (f j).logs ≤ 500)
      → IsValid db
      → IsValid (update_where (owned w i) f db)
  IsValid-owned i f db same short v = IsValid-update (owned w i) f db same short v

  IsValid-create_job :
      (i : String) (n : NewJob) (now : ℕ) (db : List Job)
      → IsValid db
      → IsValid (create_job w i n now db).1
  unfolding create_job
  IsValid-create_job i n now db v = elim (Bool-cases (any_where (has_id i) db)) [
    | inl e ↦ rw e v
    | inr e ↦ rw e (IsValid-append db (job_row w i n now) v e (omega arith))
  ]

  IsValid-update_job :
      (i : String) (c : Changes) (now : ℕ) (db : List Job)
      → IsValid db
      → IsValid (update_job w i c now db).1
  unfolding update_job
  IsValid-update_job i c now db v = elim (Bool-cases (changes_any c)) [
    | inl e ↦ rw e (IsValid-owned i (changed c now) db (λ j. refl) (λ j h. h) v)
    | inr e ↦ rw e v
  ]

  IsValid-append_found :
      (i : String) (line : Line) (row : Option Job) (db : List Job)
      → IsValid db
      → IsValid (append_found w i line row db)
  IsValid-append_found i line none db v = v
  IsValid-append_found i line (some row) db v =
      let lines = row.logs ++ (line ∷ []) in
      IsValid-owned i (log_row (last 500 lines) line.time) db (λ j. refl)
        (λ j h. length-last 500 lines) v

  IsValid-append_job_log :
      (i level message : String) (now : ℕ) (db : List Job)
      → IsValid db
      → IsValid (append_job_log w i level message now db)
  unfolding append_job_log
  IsValid-append_job_log i level message now db v =
      IsValid-append_found i (record { time = now; level = level; message = message })
        (get_job w i db) db v

  IsValid-cancel_status :
      (i : String) (now : ℕ) (s : Status) (db : List Job)
      → IsValid db
      → IsValid (cancel_status w i now s db)
  IsValid-cancel_status i now queued db v =
      IsValid-owned i (cancelled_row now) db (λ j. refl) (λ j h. h) v
  IsValid-cancel_status i now running db v =
      IsValid-owned i (cancelling_row now) db (λ j. refl) (λ j h. h) v
  IsValid-cancel_status i now cancelling db v = v
  IsValid-cancel_status i now completed db v = v
  IsValid-cancel_status i now failed db v = v
  IsValid-cancel_status i now cancelled db v = v

  IsValid-cancel_found :
      (i : String) (now : ℕ) (row : Option Job) (db : List Job)
      → IsValid db
      → IsValid (cancel_found w i now row db).1
  IsValid-cancel_found i now none db v = v
  IsValid-cancel_found i now (some row) db v = IsValid-cancel_status i now row.status db v

  IsValid-recover_each :
      (is : List String) (now : ℕ) (db : List Job) → IsValid db → IsValid (recover_each w is now db)
  unfolding recover_each
  IsValid-recover_each [] now db v = v
  IsValid-recover_each (i ∷ is) now db v =
      IsValid-recover_each is now _
        (IsValid-owned i (recovered_row now) db (λ j. refl) (λ j h. h) v)

  IsValid-recover_jobs : (now : ℕ) (db : List Job) → IsValid db → IsValid (recover_jobs w now db).1
  unfolding recover_jobs
  IsValid-recover_jobs now db v =
      IsValid-recover_each
        (unfinished_ids w (update_where (in_status w cancelling) (given_up_row now) db)) now _
        (IsValid-update (in_status w cancelling) (given_up_row now) db (λ j. refl) (λ j h. h) v)

  IsValid-logged :
      (i level message : String) (c : Changes) (now : ℕ) (db : List Job)
      → IsValid db
      → IsValid (append_job_log w i level message now (update_job w i c now db).1)
  IsValid-logged i level message c now db v =
      IsValid-append_job_log i level message now _ (IsValid-update_job i c now db v)

  IsValid-start_job :
      (i : String) (verdict : Option Failure) (note : String) (now : ℕ) (db : List Job)
      → IsValid db
      → IsValid (start_job w i verdict note now db)
  IsValid-start_job i none note now db v =
      IsValid-logged i "info" note (starting_changes now) now db v
  IsValid-start_job i (some f) note now db v =
      IsValid-logged i "error" f.message (rejected_changes f now) now db v

  IsValid-start_found :
      (i : String) (verdict : Option Failure) (note : String) (now : ℕ) (row : Option Job)
      (db : List Job)
      → IsValid db
      → IsValid (start_found w i verdict note now row db)
  IsValid-start_found i verdict note now none db v = v
  IsValid-start_found i verdict note now (some job) db v =
      elim (Bool-cases (status_eq job.status queued)) [
        | inl e ↦ rw e (IsValid-start_job i verdict note now db v)
        | inr e ↦ rw e v
      ]

  IsValid-apply : (c : Call) (now : ℕ) (db : List Job) → IsValid db → IsValid (apply w c now db)
  unfolding request_cancel begin_run end_run delete_jobs_for_character
  IsValid-apply (creates i n) now db v = IsValid-create_job i n now db v
  IsValid-apply (updates i c) now db v = IsValid-update_job i c now db v
  IsValid-apply (notes i level message) now db v = IsValid-append_job_log i level message now db v
  IsValid-apply (cancels i) now db v = IsValid-cancel_found i now (get_job w i db) db v
  IsValid-apply recovers now db v = IsValid-recover_jobs now db v
  IsValid-apply (forgets c) now db v =
      IsValid-select (λ j. not (in_workspace w j && of_character c j)) db v
  IsValid-apply (begins i verdict note) now db v =
      IsValid-start_found i verdict note now (get_job w i db) db v
  IsValid-apply (ends i o) now db v =
      IsValid-logged i (outcome_level o) (outcome_message o) (outcome_changes o now) now db v

-- Where no two rows have one identifier and no row has more than 500 lines of log, the same holds
-- after any history of calls.
pub IsValid-run :
    (w : String) (cs : List (ℕ × Call)) (db : List Job) → IsValid db → IsValid (run w cs db)
unfolding run
IsValid-run w [] db v = v
IsValid-run w ((now, c) ∷ cs) db v =
    IsValid-run w cs (apply w c now db) (IsValid-apply w c now db v)
