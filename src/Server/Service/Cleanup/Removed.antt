-- ===== src/Server/Service/Cleanup/Removed.antt =====
-- Which jobs a cleanup removes.
use rotoweave.Base.{
  ℕ, String, Bool, true, false, ◌≡◌, refl, sym, ◌∙◌, ap, ◌&&◌, Option, none, some, List, [], ◌∷◌,
  map, str_eq, eq_iff, if◌then◌else◌, inl, inr, Bool-cases, any_where, find_where, select_where,
  arith,
}
use rotoweave.Server.Logging.{field, end, text}
use rotoweave.Server.Queue.Schema.{is_terminal, Job, Db}
use rotoweave.Server.Queue.Statements.{by_id, job_of}
use rotoweave.Server.Queue.Admin.{has_expired, expired, delete, cleanup_logs}
use rotoweave.Server.Queue.Invariant.{IsValid, Distinct, elem, ids}
use rotoweave.Server.Queue.Operations.{log-keeps_jobs}
use rotoweave.Server.Queue.Housekeeping.{delete-cascade}
use rotoweave.Server.Service.Cleanup.{Place, clean_at, clean_each, cleanup_expired}

delete-job_of :
    (i k : String) (now : ℕ) (db : Db) (o : Option Job)
    → job_of i db ≡ o
    → job_of k (delete i false now db).1 ≡ (if str_eq i k then none else job_of k db)
delete-job_of i k now db (some j) e = (delete-cascade i false now db j e refl).1.0 k
delete-job_of i k now db none e = elim (Bool-cases (str_eq i k)) [
  | inl q ↦
      let same : i ≡ k = ground (arith, eq_iff i k) in unfold delete in rw (e, q) (rw same at e)
  | inr q ↦ unfold delete in rw (e, q)
]

clean_at-job_of :
    (p : Place) (i k : String) (now : ℕ) (db : Db)
    → job_of k (clean_at p i now db) ≡ (if str_eq i k && p.is_inside then none else job_of k db)
clean_at-job_of p i k now db = elim (Bool-cases p.is_inside) [
  | inl e ↦ rw e (delete-job_of i k now db (job_of i db) refl ∙ ground arith)
  | inr e ↦ rw e (
      ap (find_where (by_id k)) (
        log-keeps_jobs (some i) "error" "cleanup.unsafe_path" (field "path" (text p.path) end) none
          now db)
      ∙ ground arith)
]

module _ (place : String → Place) (k : String) where
  -- A directory is inside, of a job of the identifier.
  abbrev targets : String → Bool
  targets i = str_eq i k && (place i).is_inside

  clean_each-job_of :
      (is : List String) (now : ℕ) (db : Db)
      → job_of k (clean_each place is now db) ≡ (if any_where targets is then none else job_of k db)
  unfolding clean_each
  clean_each-job_of [] now db = refl
  clean_each-job_of (i ∷ is) now db =
      clean_each-job_of is now (clean_at (place i) i now db)
      ∙ rw (clean_at-job_of (place i) i k now db) (ground arith)

  abbrev targets_job : Job → Bool
  targets_job j = targets j.id

  any-targets :
      (js : List Job) → any_where targets (map (λ (j : Job). j.id) js) ≡ any_where targets_job js
  any-targets [] = refl
  any-targets (j ∷ js) = rw (any-targets js)

  -- Where no row has the identifier, none is targeted.
  none_targeted :
      (q : Job → Bool) (js : List Job)
      → elem k (ids js) ≡ false
      → any_where targets_job (select_where q js) ≡ false
  none_targeted q [] h = refl
  none_targeted q (x ∷ xs) h = elim (Bool-cases (str_eq x.id k)) [
    | inl e ↦ let r : true ≡ false = rw e at h in cc
    | inr e ↦
        let r : elem k (ids xs) ≡ false = rw e at h in
        elim (Bool-cases (q x)) [
          | inl t ↦ rw t (rw (e, none_targeted q xs r))
          | inr t ↦ rw t (none_targeted q xs r)
        ]
  ]

  targeted_found :
      (q : Job → Bool) (js : List Job) (j : Job)
      → Distinct (ids js)
      → find_where (by_id k) js ≡ some j
      → any_where targets_job (select_where q js) ≡ (q j && (place k).is_inside)
  targeted_found q [] j d e = cc
  targeted_found q (x ∷ xs) j d e = elim (Bool-cases (str_eq x.id k)) [
    | inl t ↦
        let r : some x ≡ some j = rw t at e in
        let same : x ≡ j = cc in
        let name : x.id ≡ k = ground (arith, eq_iff x.id k) in
        let others : elem k (ids xs) ≡ false = rw name at d.0 in
        let rest = none_targeted q xs others in
        let here : targets_job x ≡ (place k).is_inside =
          rw t (ap (λ i. (place i).is_inside) name) in
        elim (Bool-cases (q x)) [
          | inl u ↦ rw (sym same) (rw u (ground (arith, here, rest)))
          | inr u ↦ rw (sym same) (rw u rest)
        ]
    | inr t ↦
        let r : find_where (by_id k) xs ≡ some j = rw t at e in
        elim (Bool-cases (q x)) [
          | inl u ↦ rw u (rw (t, targeted_found q xs j d.1 r))
          | inr u ↦ rw u (targeted_found q xs j d.1 r)
        ]
  ]

-- In a database whose jobs have different identifiers, a cleanup removes a job just where it has expired,
-- is over, and has its directory inside the directory of jobs; it leaves the row of any other job.
pub cleanup_expired-job_of :
    (place : String → Place) (retention max_rows now : ℕ) (db : Db) (k : String) (j : Job)
    → IsValid db
    → job_of k db ≡ some j
    → job_of k (cleanup_expired place retention max_rows now db).db
      ≡ (if has_expired now j && is_terminal j.state && (place k).is_inside then none else some j)
unfolding cleanup_expired cleanup_logs expired
cleanup_expired-job_of place retention max_rows now db k j v found =
    let q : Job → Bool = λ x. has_expired now x && is_terminal x.state in
    clean_each-job_of place k (map (λ (x : Job). x.id) (select_where q db.jobs)) now db
    ∙ rw
        (
          any-targets place k (select_where q db.jobs),
          targeted_found place k q db.jobs j v.distinct_ids found,
          found,
        )
        (ground arith)
