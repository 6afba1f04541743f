-- ===== src/Client/Runtime/Isolation.antt =====
-- A repository writes the rows of its own workspace only.
use rotoweave.Base.{
  ℕ, String, Bool, true, false, ◌≡◌, refl, ◌∙◌, not, ◌&&◌, Option, none, some, List, [], ◌∷◌, ◌++◌,
  inl, inr, Bool-cases, str_eq_refl, select_where, update_where, delete_where, any_where, arith,
}
use rotoweave.Client.Runtime.{
  Status, queued, running, cancelling, completed, failed, cancelled, status_eq, Job, NewJob,
  Changes, in_workspace, has_id, owned, get_job, job_row, create_job, cancelled_row, of_character,
  cancelling_row, given_up_row, in_status, changes_any, changed, update_job, append_found,
  append_job_log, cancel_found, Line, log_row, last, unfinished_ids, cancel_status, request_cancel,
  recovered_row, recover_each, recover_jobs, delete_jobs_for_character,
}
use rotoweave.Client.Runtime.Runs.{
  Failure, starting_changes, rejected_changes, outcome_changes, outcome_level, outcome_message,
  Call, creates, updates, notes, cancels, recovers, forgets, begins, ends, start_job, start_found,
  begin_run, end_run, apply, run,
}

-- The rows of the other workspaces.
abbrev pub foreign : String → List Job → List Job
foreign w db = select_where (λ j. not (in_workspace w j)) db

outside-owned : (b : Bool) → (b && false) ≡ false
outside-owned true = refl
outside-owned false = refl

module _ (w : String) where
  foreign-append :
      (db : List Job) (j : Job)
      → in_workspace w j ≡ true
      → foreign w (db ++ (j ∷ [])) ≡ foreign w db
  foreign-append [] j h = rw h
  foreign-append (x ∷ xs) j h = rw (foreign-append xs j h)

  foreign-update :
      (p : Job → Bool) (f : Job → Job) (db : List Job)
      → ((j : Job) → in_workspace w j ≡ false → p j ≡ false)
      → ((j : Job) → (f j).workspace_id ≡ j.workspace_id)
      → foreign w (update_where p f db) ≡ foreign w db
  foreign-update p f [] outside same = refl
  foreign-update p f (x ∷ xs) outside same = elim (Bool-cases (in_workspace w x)) [
    | inl e ↦ elim (Bool-cases (p x)) [
      | inl q ↦ rw (q, same x, e, foreign-update p f xs outside same)
      | inr q ↦ rw (q, e, foreign-update p f xs outside same)
    ]
    | inr e ↦ rw (outside x e, e, foreign-update p f xs outside same)
  ]

  foreign-owned :
      (i : String) (f : Job → Job) (db : List Job)
      → ((j : Job) → (f j).workspace_id ≡ j.workspace_id)
      → foreign w (update_where (owned w i) f db) ≡ foreign w db
  foreign-owned i f db same =
      foreign-update (owned w i) f db (λ j e. rw e (outside-owned (has_id i j))) same

  foreign-delete :
      (p : Job → Bool) (db : List Job)
      → foreign w (delete_where (λ j. in_workspace w j && p j) db) ≡ foreign w db
  foreign-delete p [] = refl
  foreign-delete p (x ∷ xs) = ground (arith, foreign-delete p xs)

  foreign-create_job :
      (i : String) (n : NewJob) (now : ℕ) (db : List Job)
      → foreign w (create_job w i n now db).1 ≡ foreign w db
  unfolding create_job
  foreign-create_job i n now db = elim (Bool-cases (any_where (has_id i) db)) [
    | inl e ↦ rw e
    | inr e ↦ rw e (foreign-append db (job_row w i n now) (str_eq_refl w))
  ]

  foreign-update_job :
      (i : String) (c : Changes) (now : ℕ) (db : List Job)
      → foreign w (update_job w i c now db).1 ≡ foreign w db
  unfolding update_job
  foreign-update_job i c now db = elim (Bool-cases (changes_any c)) [
    | inl e ↦ rw e (foreign-owned i (changed c now) db (λ j. refl))
    | inr e ↦ rw e
  ]

  foreign-append_found :
      (i : String) (line : Line) (row : Option Job) (db : List Job)
      → foreign w (append_found w i line row db) ≡ foreign w db
  foreign-append_found i line none db = refl
  foreign-append_found i line (some row) db =
      foreign-owned i (log_row (last 500 (row.logs ++ (line ∷ []))) line.time) db (λ j. refl)

  foreign-append_job_log :
      (i level message : String) (now : ℕ) (db : List Job)
      → foreign w (append_job_log w i level message now db) ≡ foreign w db
  unfolding append_job_log
  foreign-append_job_log i level message now db =
      foreign-append_found i (record { time = now; level = level; message = message })
        (get_job w i db) db

  foreign-cancel_status :
      (i : String) (now : ℕ) (s : Status) (db : List Job)
      → foreign w (cancel_status w i now s db) ≡ foreign w db
  foreign-cancel_status i now queued db = foreign-owned i (cancelled_row now) db (λ j. refl)
  foreign-cancel_status i now running db = foreign-owned i (cancelling_row now) db (λ j. refl)
  foreign-cancel_status i now cancelling db = refl
  foreign-cancel_status i now completed db = refl
  foreign-cancel_status i now failed db = refl
  foreign-cancel_status i now cancelled db = refl

  foreign-cancel_found :
      (i : String) (now : ℕ) (row : Option Job) (db : List Job)
      → foreign w (cancel_found w i now row db).1 ≡ foreign w db
  foreign-cancel_found i now none db = refl
  foreign-cancel_found i now (some row) db = foreign-cancel_status i now row.status db

  foreign-request_cancel :
      (i : String) (now : ℕ) (db : List Job)
      → foreign w (request_cancel w i now db).1 ≡ foreign w db
  unfolding request_cancel
  foreign-request_cancel i now db = foreign-cancel_found i now (get_job w i db) db

  foreign-recover_each :
      (is : List String) (now : ℕ) (db : List Job)
      → foreign w (recover_each w is now db) ≡ foreign w db
  unfolding recover_each
  foreign-recover_each [] now db = refl
  foreign-recover_each (i ∷ is) now db =
      foreign-recover_each is now _ ∙ foreign-owned i (recovered_row now) db (λ j. refl)

  foreign-recover_jobs :
      (now : ℕ) (db : List Job) → foreign w (recover_jobs w now db).1 ≡ foreign w db
  unfolding recover_jobs
  foreign-recover_jobs now db =
      foreign-recover_each
        (unfinished_ids w (update_where (in_status w cancelling) (given_up_row now) db)) now _
      ∙ foreign-update (in_status w cancelling) (given_up_row now) db (λ j e. rw e) (λ j. refl)

  foreign-start_job :
      (i : String) (verdict : Option Failure) (note : String) (now : ℕ) (db : List Job)
      → foreign w (start_job w i verdict note now db) ≡ foreign w db
  foreign-start_job i none note now db =
      foreign-append_job_log i "info" note now _
      ∙ foreign-update_job i (starting_changes now) now db
  foreign-start_job i (some f) note now db =
      foreign-append_job_log i "error" f.message now _
      ∙ foreign-update_job i (rejected_changes f now) now db

  foreign-start_found :
      (i : String) (verdict : Option Failure) (note : String) (now : ℕ) (row : Option Job)
      (db : List Job)
      → foreign w (start_found w i verdict note now row db) ≡ foreign w db
  foreign-start_found i verdict note now none db = refl
  foreign-start_found i verdict note now (some job) db =
      elim (Bool-cases (status_eq job.status queued)) [
        | inl e ↦ rw e (foreign-start_job i verdict note now db)
        | inr e ↦ rw e
      ]

  foreign-begin_run :
      (i : String) (verdict : Option Failure) (note : String) (now : ℕ) (db : List Job)
      → foreign w (begin_run w i verdict note now db) ≡ foreign w db
  unfolding begin_run
  foreign-begin_run i verdict note now db =
      foreign-start_found i verdict note now (get_job w i db) db

  foreign-apply : (c : Call) (now : ℕ) (db : List Job) → foreign w (apply w c now db) ≡ foreign w db
  unfolding end_run delete_jobs_for_character
  foreign-apply (creates i n) now db = foreign-create_job i n now db
  foreign-apply (updates i c) now db = foreign-update_job i c now db
  foreign-apply (notes i level message) now db = foreign-append_job_log i level message now db
  foreign-apply (cancels i) now db = foreign-request_cancel i now db
  foreign-apply recovers now db = foreign-recover_jobs now db
  foreign-apply (forgets c) now db = foreign-delete (of_character c) db
  foreign-apply (begins i verdict note) now db = foreign-begin_run i verdict note now db
  foreign-apply (ends i o) now db =
      foreign-append_job_log i (outcome_level o) (outcome_message o) now _
      ∙ foreign-update_job i (outcome_changes o now) now db

-- No history of calls on the repository of one workspace adds, removes or alters a row of another
-- workspace, or changes the order of such rows.
pub foreign-run :
    (w : String) (cs : List (ℕ × Call)) (db : List Job) → foreign w (run w cs db) ≡ foreign w db
unfolding run
foreign-run w [] db = refl
foreign-run w ((now, c) ∷ cs) db = foreign-run w cs (apply w c now db) ∙ foreign-apply w c now db
