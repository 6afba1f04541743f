-- ===== src/Server/Service/Submit/Guards.antt =====
-- What a submission does on each of its ends.
use rotoweave.Base.{
  String, ℕ, true, false, ◌≡◌, refl, sym, ap, subst, Option, none, some, [], ◌∷◌, ◌++◌, str_eq, inl,
  inr, Bool-cases, any_where, All, ◌<◌, ◌≤◌, arith, List,
}
use rotoweave.Server.Queue.Schema.{Control, queued, Job, Db}
use rotoweave.Server.Queue.Statements.{by_id, job_of_key, next_order}
use rotoweave.Server.Queue.Enqueue.{NewJob, job_row, enqueue}
use rotoweave.Server.Queue.Intake.{enqueue-accepted, enqueue-taken}
use rotoweave.Server.Queue.Operations.{log-ok}
use rotoweave.Server.Service.Submit.{
  is_sha256, Checked, unchecked, check_raised, checked, Conditions, Refusal, Submitted, refused,
  raised, returned, is_closed, submit_known, plan_detail, submitted_of, submit_archive,
  submit_checked, blocked_by, blocked_in, has_preflight, profile_unavailable, no_configuration,
  submit_unblocked, submit_found, submit,
}

-- The queue and its jobs are as before.
abbrev pub KeepsQueue : Db → Db → Type 0
KeepsQueue db d = (d.jobs ≡ db.jobs) × (d.events ≡ db.events) × (d.control ≡ db.control)

-- The model center and the processor allow the profile.
abbrev pub IsUnblocked : Conditions → Option String → Type 0
IsUnblocked c (some digest) = c.is_ready ≡ true
IsUnblocked c none = has_preflight c.preflight ≡ false

blocked_in-IsUnblocked :
    (c : Conditions) (a : Option String) → blocked_in c a ≡ none → IsUnblocked c a
blocked_in-IsUnblocked c (some digest) e = elim (Bool-cases c.is_ready) [
  | inl q ↦ q
  | inr q ↦ let r : some profile_unavailable ≡ none = rw q at e in cc
]
blocked_in-IsUnblocked c none e = elim (Bool-cases (has_preflight c.preflight)) [
  | inl q ↦ let r : some no_configuration ≡ none = rw q at e in cc
  | inr q ↦ q
]

is_closed-opened :
    (c : Control)
    → is_closed c ≡ false
    → (c.maintenance ≡ false) × (str_eq c.mode "draining" ≡ false)
is_closed-opened c e = elim (Bool-cases c.maintenance) [
  | inl q ↦ let r : true ≡ false = rw q at e in cc
  | inr q ↦ (q, rw q at e)
]

-- What each end of a submission leaves: a refusal and an error leave the queue as it was, a job that is
-- returned as known has the key and the digest of the request, and one that is returned as new is queued
-- last under the active configuration, by a queue that was open.
abbrev pub IsSubmitted : Conditions → NewJob → Db → Submitted × Db → Type 0
IsSubmitted c n db (refused r, d) = KeepsQueue db d
IsSubmitted c n db (raised e, d) = KeepsQueue db d
IsSubmitted c n db (returned j false, d) =
    (d ≡ db)
    × (job_of_key n.idempotency_key db ≡ some j)
    × (str_eq j.request_sha256 n.request_sha256 ≡ true)
IsSubmitted c n db (returned j true, d) =
    (db.control.maintenance ≡ false)
    × (str_eq db.control.mode "draining" ≡ false)
    × (is_sha256 n.idempotency_key ≡ true)
    × (job_of_key n.idempotency_key db ≡ none)
    × IsUnblocked c c.active
    × (d.jobs ≡ db.jobs ++ j ∷ [])
    × All (λ (x : Job). x.queue_order < j.queue_order) db.jobs
    × (j.state ≡ queued)
    × (j.model_configuration_digest ≡ c.active)

next_order-above :
    (m : ℕ) (js : List Job) → next_order js ≤ m → All (λ (x : Job). x.queue_order < m) js
unfolding next_order
next_order-above m [] h = tt
next_order-above m (x ∷ js) h = (ground arith, next_order-above m js (ground arith))

module _ (c : Conditions) (n : NewJob) (now : ℕ) (db : Db) where
  known-IsSubmitted :
      (j : Job)
      → job_of_key n.idempotency_key db ≡ some j
      → IsSubmitted c n db (submit_known n j db)
  known-IsSubmitted j k = elim (Bool-cases (str_eq j.request_sha256 n.request_sha256)) [
    | inl e ↦ rw e (refl, k, e)
    | inr e ↦ rw e (refl, refl, refl)
  ]

  module _ (opened : is_closed db.control ≡ false) (key : is_sha256 n.idempotency_key ≡ true)
      (new : job_of_key n.idempotency_key db ≡ none) (free : blocked_by c ≡ none) where
    abbrev configured : NewJob
    configured = record n { model_configuration_digest = c.active }

    -- Of a database that differs by its logs at most.
    enqueued-IsSubmitted :
        (d : Db) → KeepsQueue db d → IsSubmitted c n db (submitted_of (enqueue configured now d))
    enqueued-IsSubmitted d h =
        let still : job_of_key n.idempotency_key d ≡ none = rw h.0 new in
        elim (Bool-cases (any_where (by_id n.job_id) d.jobs)) [
          | inl e ↦ rw (enqueue-taken configured now d still e) h
          | inr e ↦ rw (enqueue-accepted configured now d still e) (
            (is_closed-opened db.control opened).0,
            (is_closed-opened db.control opened).1,
            key,
            new,
            blocked_in-IsUnblocked c c.active free,
            ap (λ js. js ++ job_row configured (next_order d.jobs) now ∷ []) h.0,
            subst (λ js. All (λ (x : Job). x.queue_order < next_order d.jobs) js) h.0
                (next_order-above (next_order d.jobs) d.jobs (omega arith)),
            refl,
            refl,
          )
        ]

    archive-IsSubmitted : (d : Db) → KeepsQueue db d → IsSubmitted c n db (submit_archive c n now d)
    archive-IsSubmitted d h = elim (Bool-cases c.archive_is_sound) [
      | inl e ↦ rw e (enqueued-IsSubmitted d h)
      | inr e ↦ rw e h
    ]

    checked-IsSubmitted : (p : Checked) → IsSubmitted c n db (submit_checked c n now p db)
    checked-IsSubmitted unchecked = archive-IsSubmitted db (refl, refl, refl)
    checked-IsSubmitted check_raised = (refl, refl, refl)
    checked-IsSubmitted (checked p) = archive-IsSubmitted _ (
        subst (KeepsQueue db)
          (sym (
            ap (λ r. r.1)
              (log-ok none "info" "memory.plan_selected" (plan_detail n.quality_profile p)
                (some "worker") now db refl)))
          (refl, refl, refl))

  unblocked-IsSubmitted :
      (o : Option Refusal)
      → is_closed db.control ≡ false
      → is_sha256 n.idempotency_key ≡ true
      → job_of_key n.idempotency_key db ≡ none
      → blocked_by c ≡ o
      → IsSubmitted c n db (submit_unblocked c n now o db)
  unblocked-IsSubmitted (some r) o k f b = (refl, refl, refl)
  unblocked-IsSubmitted none o k f b = checked-IsSubmitted o k f b c.preflight

  found-IsSubmitted :
      (o : Option Job)
      → is_closed db.control ≡ false
      → is_sha256 n.idempotency_key ≡ true
      → job_of_key n.idempotency_key db ≡ o
      → IsSubmitted c n db (submit_found c n now o db)
  found-IsSubmitted (some j) o k f = known-IsSubmitted j f
  found-IsSubmitted none o k f = unblocked-IsSubmitted (blocked_by c) o k f refl

  -- A submission that is refused or raises leaves the jobs, the events and the queue's control as they were.
  -- One that is answered with a known job changes nothing, and that job has its key and its digest. One that
  -- is answered with a new job was made under a well-formed key that no job had, while the queue was neither
  -- draining nor in maintenance and the profile was not blocked; the new job is queued under the active
  -- configuration, and its queue_order is greater than that of every other job.
  pub submit-IsSubmitted : IsSubmitted c n db (submit c n now db)
  unfolding submit
  submit-IsSubmitted = elim (Bool-cases (is_closed db.control)) [
    | inl e ↦ rw e (refl, refl, refl)
    | inr e ↦ elim (Bool-cases (is_sha256 n.idempotency_key)) [
      | inl k ↦ rw (e, k) (found-IsSubmitted (job_of_key n.idempotency_key db) e k refl)
      | inr k ↦ rw (e, k) (refl, refl, refl)
    ]
  ]
