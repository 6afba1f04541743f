-- ===== src/Server/Queue/Invariant/Proof.antt =====
-- Every call of the queue keeps the invariant.
use rotoweave.Base.{
  ℕ, suc, ◌+◌, String, ◌≡◌, refl, ap, ◌∙◌, Bool, true, false, Option, none, some, List, [], ◌∷◌,
  ◌++◌, arith, str_eq, eq_iff, any_where, delete_where, Bool-cases, inl, inr, length, length-append,
  All,
}
use rotoweave.Base.Signed.{ℤ, pos, negsuc}
use rotoweave.Server.Queue.Schema.{State, Job, Event, Log, Db, whole}
use rotoweave.Server.Queue.Statements.{
  by_id, by_key, next_sequence, event_row, clamp_progress, log_parent_exists,
}
use rotoweave.Server.Queue.Admin.{log_of, without_job}
use rotoweave.Server.Queue.Effects.{with_job, with_event, KeepsId, any-update}
use rotoweave.Server.Queue.Changes.{
  Change, KeepsKey, keep, chain, update, event, log, insert, control, delete, prune,
}
use rotoweave.Server.Queue.Changes.Rules.{apply-Change}
use rotoweave.Server.Queue.Calls.{Call, apply, run}
use rotoweave.Server.Queue.Invariant.{IsValid, InUnit, PayloadAgrees, sequences, count_up}
use rotoweave.Server.Queue.Invariant.Keys.{keys-update, Distinct-insert, Distinct-delete}
use rotoweave.Server.Queue.Invariant.Events.{
  sequences-append, sequences-delete, next_sequence-length, count_up-snoc,
}

pub All-map {ℓ κ} :
    {A : Type ℓ} (P Q : A → Type κ) → ((a : A) → P a → Q a) → (xs : List A) → All P xs → All Q xs
All-map P Q f [] h = tt
All-map P Q f (x ∷ xs) h = (f x h.0, All-map P Q f xs h.1)

pub All-snoc {ℓ κ} :
    {A : Type ℓ} (P : A → Type κ) (xs : List A) (a : A) → All P xs → P a → All P (xs ++ a ∷ [])
All-snoc P [] a h p = (p, tt)
All-snoc P (x ∷ xs) a h p = (h.0, All-snoc P xs a h.1 p)

pub All-delete {ℓ} :
    {A : Type ℓ} (P : A → Type 0) (p : A → Bool) (xs : List A)
    → All P xs
    → All (λ x. P x × (p x ≡ false)) (delete_where p xs)
All-delete P p [] h = tt
All-delete P p (x ∷ xs) h = elim (Bool-cases (p x)) [
  | inl e ↦ rw e (All-delete P p xs h.1)
  | inr e ↦ rw e ((h.0, e), All-delete P p xs h.1)
]

log_parent-weaken :
    (a b : Db)
    → ((i : String) → any_where (by_id i) a.jobs ≡ true → any_where (by_id i) b.jobs ≡ true)
    → (o : Option String) → log_parent_exists o a.jobs ≡ true
    → log_parent_exists o b.jobs ≡ true
log_parent-weaken a b f none h = refl
log_parent-weaken a b f (some i) h = f i h

any-insert :
    (i : String) (js : List Job) (j : Job)
    → any_where (by_id i) js ≡ true
    → any_where (by_id i) (js ++ j ∷ []) ≡ true
any-insert i [] j h = cc
any-insert i (x ∷ js) j h = ground (arith, any-insert i js j)

any-delete :
    (k i : String) (js : List Job)
    → any_where (by_id i) js ≡ true
    → str_eq i k ≡ false
    → any_where (by_id i) (delete_where (by_id k) js) ≡ true
any-delete k i [] h n = cc
any-delete k i (x ∷ js) h n =
    ground (arith, any-delete k i js, eq_iff x.id k, eq_iff x.id i, eq_iff i k)

numbered-append :
    (i : String) (es : List Event) (e : Event)
    → ((k : String) → sequences k es ≡ count_up 0 (length (sequences k es)))
    → e.sequence ≡ next_sequence e.job_id es
    → sequences i (es ++ e ∷ []) ≡ count_up 0 (length (sequences i (es ++ e ∷ [])))
numbered-append i es e h n = elim (Bool-cases (str_eq e.job_id i)) [
  | inr d ↦ rw (sequences-append i es e, d) (h i)
  | inl d ↦
      rw (sequences-append i es e, d)
        (extended (sequences i es) e.sequence (h i) (
          n
          ∙ ap (λ k. next_sequence k es) ((eq_iff e.job_id i).0 d)
          ∙ next_sequence-length i es (h i)))
]
  where
    extended :
        (ns : List ℕ) (m : ℕ)
        → ns ≡ count_up 0 (length ns)
        → m ≡ length ns
        → ns ++ m ∷ [] ≡ count_up 0 (length (ns ++ m ∷ []))
    extended ns m p q =
        let size : length (ns ++ m ∷ []) ≡ suc (length ns) =
          length-append ns (m ∷ []) ∙ omega arith in
        let zeroth : m ≡ 0 + length ns = q ∙ omega arith in
        rw (size, zeroth) (ap (λ xs. xs ++ (0 + length ns) ∷ []) p ∙ count_up-snoc 0 (length ns))

clamp-InUnit : (p : ℤ) → InUnit (clamp_progress whole p)
unfolding clamp_progress
clamp-InUnit (pos n) = ground arith
clamp-InUnit (negsuc n) = ground arith

-- What the references ask of the jobs: each id that had a job still has one.
abbrev Covers : Db → Db → Type 0
Covers a b = (i : String) → any_where (by_id i) a.jobs ≡ true → any_where (by_id i) b.jobs ≡ true

abbrev EventParents : Db → List Event → Type 0
EventParents db es = All (λ (e : Event). any_where (by_id e.job_id) db.jobs ≡ true) es

abbrev LogParents : Db → List Log → Type 0
LogParents db ls = All (λ (l : Log). log_parent_exists l.job_id db.jobs ≡ true) ls

module _ (a b : Db) (covers : Covers a b) where
  EventParents-weaken : (es : List Event) → EventParents a es → EventParents b es
  EventParents-weaken es = All-map _ _ (λ (e : Event) h. covers e.job_id h) es

  LogParents-weaken : (ls : List Log) → LogParents a ls → LogParents b ls
  LogParents-weaken ls = All-map _ _ (λ (l : Log) h. log_parent-weaken a b covers l.job_id h) ls

update-IsValid :
    {db : Db} (i : String) (f : Job → Job)
    → KeepsId f
    → KeepsKey f
    → IsValid db
    → IsValid (with_job i f db)
update-IsValid {db} i f keeps_id keeps_key v =
    let b = with_job i f db in
    let covers : Covers db b = λ k h. any-update f keeps_id i k db.jobs ∙ h in
    record {
      distinct_ids =
          rw (keys-update (λ (j : Job). j.id) (by_id i) f keeps_id db.jobs) v.distinct_ids;
      distinct_keys =
          rw (keys-update (λ (j : Job). j.idempotency_key) (by_id i) f keeps_key db.jobs)
            v.distinct_keys;
      event_parents = EventParents-weaken db b covers db.events v.event_parents;
      log_parents = LogParents-weaken db b covers db.logs v.log_parents;
      numbered = v.numbered;
      payloads = v.payloads;
    }

insert-IsValid :
    {db : Db} (j : Job)
    → any_where (by_id j.id) db.jobs ≡ false
    → any_where (by_key j.idempotency_key) db.jobs ≡ false
    → IsValid db
    → IsValid (record db { jobs = db.jobs ++ j ∷ [] })
insert-IsValid {db} j new_id new_key v =
    let b : Db = record db { jobs = db.jobs ++ j ∷ [] } in
    let covers : Covers db b = λ k h. any-insert k db.jobs j h in
    record {
      distinct_ids = Distinct-insert (λ (j : Job). j.id) db.jobs j new_id v.distinct_ids;
      distinct_keys =
          Distinct-insert (λ (j : Job). j.idempotency_key) db.jobs j new_key v.distinct_keys;
      event_parents = EventParents-weaken db b covers db.events v.event_parents;
      log_parents = LogParents-weaken db b covers db.logs v.log_parents;
      numbered = v.numbered;
      payloads = v.payloads;
    }

event-IsValid :
    {db : Db} (i : String) (s : State) (p : ℤ) (stage message : Option String) (now : ℕ)
    → any_where (by_id i) db.jobs ≡ true
    → IsValid db
    → IsValid (with_event i s p stage message now db)
event-IsValid {db} i s p stage message now h v =
    let e = event_row i (next_sequence i db.events) s p stage message now in
    record {
      distinct_ids = v.distinct_ids;
      distinct_keys = v.distinct_keys;
      event_parents = All-snoc _ db.events e v.event_parents h;
      log_parents = v.log_parents;
      numbered = λ k. numbered-append k db.events e v.numbered refl;
      payloads = All-snoc PayloadAgrees db.events e v.payloads (refl, refl, clamp-InUnit p);
    }

log_of-other :
    (i : String) (db : Db) (o : Option String)
    → log_parent_exists o db.jobs ≡ true
    → elim o [ none ↦ false | some k ↦ str_eq k i ] ≡ false
    → log_parent_exists o (without_job i db).jobs ≡ true
log_of-other i db none h n = refl
log_of-other i db (some k) h n = any-delete i k db.jobs h n

delete-numbered :
    (i k : String) (es : List Event)
    → sequences k es ≡ count_up 0 (length (sequences k es))
    → let rest = delete_where (λ (e : Event). str_eq e.job_id i) es in
      sequences k rest ≡ count_up 0 (length (sequences k rest))
delete-numbered i k es h = elim (Bool-cases (str_eq i k)) [
  | inl e ↦ rw (sequences-delete i k es, e) refl
  | inr e ↦ rw (sequences-delete i k es, e) h
]

delete-IsValid : {db : Db} (i : String) → IsValid db → IsValid (without_job i db)
delete-IsValid {db} i v = record {
  distinct_ids = Distinct-delete (λ (j : Job). j.id) (by_id i) db.jobs v.distinct_ids;
  distinct_keys =
      Distinct-delete (λ (j : Job). j.idempotency_key) (by_id i) db.jobs v.distinct_keys;
  event_parents =
      All-map _ _ (λ (e : Event) h. any-delete i e.job_id db.jobs h.0 h.1) _
        (All-delete _ (λ (e : Event). str_eq e.job_id i) db.events v.event_parents);
  log_parents =
      All-map _ _ (λ (l : Log) h. log_of-other i db l.job_id h.0 h.1) _
        (All-delete _ (log_of i) db.logs v.log_parents);
  numbered = λ k. delete-numbered i k db.events (v.numbered k);
  payloads =
      All-map _ PayloadAgrees (λ (e : Event) h. h.0) _
        (All-delete PayloadAgrees (λ (e : Event). str_eq e.job_id i) db.events v.payloads);
}

Change-IsValid : {a b : Db} → Change a b → IsValid a → IsValid b
Change-IsValid keep v = v
Change-IsValid (chain c d) v = Change-IsValid d (Change-IsValid c v)
Change-IsValid (update i f k l) v = update-IsValid i f k l v
Change-IsValid (event i s p stage message now h) v = event-IsValid i s p stage message now h v
Change-IsValid (log i level name detail component now h) v = record {
  distinct_ids = v.distinct_ids;
  distinct_keys = v.distinct_keys;
  event_parents = v.event_parents;
  log_parents = All-snoc _ _ _ v.log_parents h;
  numbered = v.numbered;
  payloads = v.payloads;
}
Change-IsValid (insert j h k) v = insert-IsValid j h k v
Change-IsValid (control c) v = record {
  distinct_ids = v.distinct_ids;
  distinct_keys = v.distinct_keys;
  event_parents = v.event_parents;
  log_parents = v.log_parents;
  numbered = v.numbered;
  payloads = v.payloads;
}
Change-IsValid (delete i) v = delete-IsValid i v
Change-IsValid (prune n old) v = record {
  distinct_ids = v.distinct_ids;
  distinct_keys = v.distinct_keys;
  event_parents = v.event_parents;
  log_parents = v.log_parents;
  numbered = v.numbered;
  payloads = v.payloads;
}

-- Every call that writes, whatever it returns, keeps the job ids and the idempotency keys unique, every
-- event and log row pointing to a job, and the events of each job numbered 0, 1, 2, … without a gap.
pub apply-IsValid : (c : Call) (now : ℕ) (db : Db) → IsValid db → IsValid (apply c now db)
apply-IsValid c now db v = Change-IsValid (apply-Change c now db) v

pub run-IsValid : (cs : List (ℕ × Call)) (db : Db) → IsValid db → IsValid (run cs db)
unfolding run
run-IsValid [] db v = v
run-IsValid ((now, c) ∷ cs) db v = run-IsValid cs (apply c now db) (apply-IsValid c now db v)
