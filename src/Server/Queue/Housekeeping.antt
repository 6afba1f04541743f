-- ===== src/Server/Queue/Housekeeping.antt =====
-- Deletion and the pruning of logs (`delete` and `cleanup_logs` in
-- RotoWeaveServer/server/repository.py).
use rotoweave.Base.{
  ℕ, zero, suc, ◌+◌, ◌-◌, ◌≤◌, min, String, ◌≡◌, refl, ap, Bool, true, false, not, ◌&&◌, none, some,
  List, [], ◌∷◌, ◌++◌, arith, str_eq, any_where, delete_where, length, drop, take, if◌then◌else◌,
  ltb, leb, select_where, str_eq_refl, Bool-cases, inl, inr, Option, ◌∙◌,
}
use rotoweave.Server.Logging.{field, end, text}
use rotoweave.Server.Queue.Schema.{state_text, is_terminal, Job, Event, Log, OperationalLog, Db}
use rotoweave.Server.Queue.Statements.{ok, job_of}
use rotoweave.Server.Queue.Admin.{delete, log_of, Cleanup, cleanup_logs}
use rotoweave.Server.Queue.Effects.{with_log}
use rotoweave.Server.Queue.Operations.{delete-found, find-delete}

any-delete_none :
    {A : Type 0} (p : A → Bool) (xs : List A) → any_where p (delete_where p xs) ≡ false
any-delete_none p [] = refl
any-delete_none p (x ∷ xs) = ground (arith, any-delete_none p xs)

length-snoc {ℓ} : {A : Type ℓ} (xs : List A) (a : A) → length (xs ++ a ∷ []) ≡ suc (length xs)
length-snoc [] a = refl
length-snoc (x ∷ xs) a = ap suc (length-snoc xs a)

-- The rows that a deletion leaves are those that do not meet its condition, in their order.
select-delete_where :
    {A : Type 0} (p : A → Bool) (xs : List A)
    → select_where (λ x. not (p x)) (delete_where p xs) ≡ select_where (λ x. not (p x)) xs
select-delete_where p [] = refl
select-delete_where p (x ∷ xs) = elim (Bool-cases (p x)) [
  | inl e ↦ rw e (select-delete_where p xs)
  | inr e ↦ rw e (rw e (ap (λ ys. x ∷ ys) (select-delete_where p xs)))
]

select-snoc :
    {A : Type 0} (p : A → Bool) (xs : List A) (a : A)
    → p a ≡ false
    → select_where p (xs ++ a ∷ []) ≡ select_where p xs
select-snoc p [] a h = rw h
select-snoc p (x ∷ xs) a h = elim (Bool-cases (p x)) [
  | inl e ↦ rw e (ap (λ ys. x ∷ ys) (select-snoc p xs a h))
  | inr e ↦ rw e (select-snoc p xs a h)
]

-- The job that a row is of, where it has one.
abbrev pub belongs : String → Option String → Bool
belongs i none = false
belongs i (some k) = str_eq k i

-- `db'` is `db` without the job `i`, its events and its job logs, and with one operational log more.
abbrev pub LacksJob : String → Db → Db → Type 0
LacksJob i db db' =
    ((k : String) → job_of k db' ≡ (if str_eq i k then none else job_of k db))
    × (any_where (λ (e : Event). str_eq e.job_id i) db'.events ≡ false)
    × (any_where (λ (l : Log). belongs i l.job_id) db'.logs ≡ false)
    × (select_where (λ (e : Event). not (str_eq e.job_id i)) db'.events
        ≡ select_where (λ (e : Event). not (str_eq e.job_id i)) db.events)
    × (select_where (λ (l : Log). not (belongs i l.job_id)) db'.logs
        ≡ select_where (λ (l : Log). not (belongs i l.job_id)) db.logs)
    × (db'.control ≡ db.control)
    × ((l : OperationalLog) × (db'.operational_logs ≡ db.operational_logs ++ l ∷ []))

-- A deletion that is not refused removes the job with all its events and job logs, leaves every other
-- job's row, event and job log, and the queue's control, and adds one row to the operational logs.
pub delete-cascade :
    (i : String) (terminal_only : Bool) (now : ℕ) (db : Db) (j : Job)
    → job_of i db ≡ some j
    → (terminal_only && not (is_terminal j.state)) ≡ false
    → ((delete i terminal_only now db).0 ≡ ok true)
      × LacksJob i db (delete i terminal_only now db).1
delete-cascade i terminal_only now db j found free =
    rw (delete-found i terminal_only now db j found, free)
      (
        refl,
        (
          (λ k. find-delete i k db.jobs),
          any-delete_none (λ (e : Event). str_eq e.job_id i) db.events,
          any-delete_none (log_of i) logged.logs,
          select-delete_where (λ (e : Event). str_eq e.job_id i) db.events,
          select-delete_where (log_of i) logged.logs
              ∙ select-snoc (λ (l : Log). not (belongs i l.job_id)) db.logs _ (rw (str_eq_refl i)),
          refl,
          (_, refl),
        ),
      )
  where
    logged : Db
    logged =
        with_log (some i) "warning" "job.deleted" (field "state" (text (state_text j.state)) end)
          (some "admin") now db

length-drop : {A : Type 0} (n : ℕ) (xs : List A) → length (drop n xs) ≡ length xs - n
length-drop zero xs = omega arith
length-drop (suc n) [] = omega arith
length-drop (suc n) (x ∷ xs) = omega (arith, length-drop n xs)

length-delete : {A : Type 0} (p : A → Bool) (xs : List A) → length (delete_where p xs) ≤ length xs
length-delete p [] = omega arith
length-delete p (x ∷ xs) = ground (arith, length-delete p xs)

take-drop : {A : Type 0} (n : ℕ) (xs : List A) → xs ≡ take n xs ++ drop n xs
take-drop zero xs = refl
take-drop (suc n) [] = refl
take-drop (suc n) (x ∷ xs) = ap (λ ys. x ∷ ys) (take-drop n xs)

length-take : {A : Type 0} (n : ℕ) (xs : List A) → length (take n xs) ≡ min n (length xs)
length-take zero xs = omega arith
length-take (suc n) [] = omega arith
length-take (suc n) (x ∷ xs) = omega (arith, length-take n xs)

delete-select :
    (c : ℕ) (ls : List OperationalLog)
    → select_where (λ (l : OperationalLog). leb c l.created_at) ls
      ≡ delete_where (λ (l : OperationalLog). ltb l.created_at c) ls
delete-select c [] = refl
delete-select c (l ∷ ls) = elim (Bool-cases (ltb l.created_at c)) [
  | inl e ↦
      let apart : leb c l.created_at ≡ false = ground (arith, e) in
      rw (e, apart) (delete-select c ls)
  | inr e ↦
      let at : leb c l.created_at ≡ true = ground (arith, e) in
      rw (e, at) (ap (λ ys. l ∷ ys) (delete-select c ls))
]

-- What is left of the operational logs: of the rows that are not older than the retention, all but the
-- first ones, which make up the excess over `max_rows`, 5000 of them at most.
abbrev pub IsPruned : ℕ → ℕ → List OperationalLog → List OperationalLog → Cleanup → Type 0
IsPruned cutoff max_rows before left c =
    let recent = select_where (λ (l : OperationalLog). leb cutoff l.created_at) before in
    ((first : List OperationalLog) × (recent ≡ first ++ left)
      × (length first ≡ min (length recent - max_rows) 5000))
    × (c.removed + length left ≡ length before)
    × (c.remaining_over_limit ≡ length left - max_rows)
    × (c.cutoff ≡ cutoff)

-- `cleanup_logs` removes the operational logs older than the retention and, of the others, as many of the
-- first as there are over `max_rows`, but 5000 at most; it reports the number of rows removed, the cutoff
-- and the number by which the rows left pass `max_rows`.
pub cleanup_logs_lem :
    (retention max_rows now : ℕ) (db : Db)
    → (c : Cleanup) × ((cleanup_logs retention max_rows now db).0 ≡ ok c)
      × IsPruned
          (now - retention)
          max_rows
          db.operational_logs
          (cleanup_logs retention max_rows now db).1.operational_logs
          c
unfolding cleanup_logs
cleanup_logs_lem retention max_rows now db =
    let old = λ (l : OperationalLog). ltb l.created_at (now - retention) in
    let kept = delete_where old db.operational_logs in
    let excess = length kept - max_rows in
    (
      record {
        removed = (length db.operational_logs - length kept) + min excess 5000;
        cutoff = now - retention;
        remaining_over_limit = excess - min excess 5000;
      },
      refl,
      rw (delete-select (now - retention) db.operational_logs) (
        (
          take (min excess 5000) kept,
          take-drop (min excess 5000) kept,
          omega (arith, length-take (min excess 5000) kept),
        ),
        omega (arith, length-drop (min excess 5000) kept, length-delete old db.operational_logs),
        omega (arith, length-drop (min excess 5000) kept),
        refl,
      ),
    )
