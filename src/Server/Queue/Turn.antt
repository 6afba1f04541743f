-- ===== src/Server/Queue/Turn.antt =====
-- The jobs in a state, in the order of the queue: `SELECT … WHERE state=? ORDER BY queue_order,
-- created_at` in RotoWeaveServer/server/repository.py.
use rotoweave.Base.{
  String, ◌≡◌, refl, sym, ap, ◌∙◌, Bool, true, false, some, List, [], ◌∷◌, arith, str_eq,
  str_eq_refl, eq_iff, any_where, find_where, select_where, Bool-cases, inl, inr, All,
}
use rotoweave.Base.Order.{insert_by, sort_by}
use rotoweave.Base.Order.Laws.{
  any-sort_by, All-sort_by, All-sort_by_inv, IsSorted, IsSorted-sort_by,
}
use rotoweave.Server.Queue.Schema.{State, state_eq, Job, Db}
use rotoweave.Server.Queue.Statements.{by_id, job_of}
use rotoweave.Server.Queue.Dispatch.{in_state, in_turn, jobs_in_turn}
use rotoweave.Server.Queue.Invariant.{Distinct, elem, ids}
use rotoweave.Server.Queue.Invariant.Keys.{elem-keys}

pub state_eq→≡ : (s t : State) → state_eq s t ≡ true → s ≡ t
unfolding state_eq
state_eq→≡ s t h = ground arith

pub state_eq_refl : (s : State) → state_eq s s ≡ true
unfolding state_eq
state_eq_refl s = ground arith

in_turn_total : (a b : Job) → in_turn a b ≡ false → in_turn b a ≡ true
unfolding in_turn
in_turn_total a b h = ground arith

in_turn_trans : (a b c : Job) → in_turn a b ≡ true → in_turn b c ≡ true → in_turn a c ≡ true
unfolding in_turn
in_turn_trans a b c h k = ground arith

pub jobs_in_turn-IsSorted : (s : State) (db : Db) → IsSorted in_turn (jobs_in_turn s db)
unfolding jobs_in_turn
jobs_in_turn-IsSorted s db =
    IsSorted-sort_by in_turn in_turn_total in_turn_trans (select_where (in_state s) db.jobs)

Distinct-insert_by :
    (x : Job) (ys : List Job)
    → elem x.id (ids ys) ≡ false
    → Distinct (ids ys)
    → Distinct (ids (insert_by in_turn x ys))
unfolding insert_by
Distinct-insert_by x [] n d = (refl, tt)
Distinct-insert_by x (y ∷ ys) n d = elim (Bool-cases (in_turn x y)) [
  | inl e ↦ rw e (n, d)
  | inr e ↦ rw e (away ys (ground arith) d.0, Distinct-insert_by x ys (ground arith) d.1)
]
  where
    away :
        (zs : List Job)
        → str_eq y.id x.id ≡ false
        → elem y.id (ids zs) ≡ false
        → elem y.id (ids (insert_by in_turn x zs)) ≡ false
    away [] p q = ground (arith, eq_iff y.id x.id, eq_iff x.id y.id)
    away (z ∷ zs) p q = ground (arith, away zs p, eq_iff y.id x.id, eq_iff x.id y.id)

elem-select :
    (p : Job → Bool) (k : String) (js : List Job)
    → elem k (ids js) ≡ false
    → elem k (ids (select_where p js)) ≡ false
elem-select p k [] h = refl
elem-select p k (x ∷ js) h = ground (arith, elem-select p k js)

Distinct-select :
    (p : Job → Bool) (js : List Job) → Distinct (ids js) → Distinct (ids (select_where p js))
Distinct-select p [] d = tt
Distinct-select p (x ∷ js) d = elim (Bool-cases (p x)) [
  | inl e ↦ rw e (elem-select p x.id js d.0, Distinct-select p js d.1)
  | inr e ↦ rw e (Distinct-select p js d.1)
]

elem-sort_by : (k : String) (js : List Job) → elem k (ids (sort_by in_turn js)) ≡ elem k (ids js)
elem-sort_by k js =
    elem-keys (λ (j : Job). j.id) k (sort_by in_turn js)
    ∙ any-sort_by in_turn (by_id k) js
    ∙ sym (elem-keys (λ (j : Job). j.id) k js)

Distinct-sort_by : (js : List Job) → Distinct (ids js) → Distinct (ids (sort_by in_turn js))
unfolding sort_by
Distinct-sort_by [] d = tt
Distinct-sort_by (x ∷ js) d =
    Distinct-insert_by x (sort_by in_turn js) (elem-sort_by x.id js ∙ d.0) (Distinct-sort_by js d.1)

pub jobs_in_turn-Distinct :
    (s : State) (db : Db) → Distinct (ids db.jobs) → Distinct (ids (jobs_in_turn s db))
unfolding jobs_in_turn
jobs_in_turn-Distinct s db d = Distinct-sort_by _ (Distinct-select (in_state s) db.jobs d)

found-select :
    (s : State) (k : String) (js : List Job)
    → Distinct (ids js)
    → any_where (by_id k) (select_where (in_state s) js) ≡ true
    → (j : Job) × (find_where (by_id k) js ≡ some j) × (j.state ≡ s)
found-select s k [] d h = cc
found-select s k (x ∷ js) d h = elim (Bool-cases (str_eq x.id k)) [
  | inl e ↦ elim (Bool-cases (state_eq x.state s)) [
    | inl t ↦ (x, rw e, state_eq→≡ x.state s t)
    | inr t ↦
        let gone : elem k (ids (select_where (in_state s) js)) ≡ false =
          elem-select (in_state s) k js
            (ap (λ i. elem i (ids js)) (sym ((eq_iff x.id k).0 e)) ∙ d.0) in
        absurd
          (clash (sym (elem-keys (λ (j : Job). j.id) k (select_where (in_state s) js)) ∙ gone) t)
  ]
  | inr e ↦ let (j, f, q) = found-select s k js d.1 (ground arith) in (j, rw e f, q)
]
  where
    clash :
        any_where (by_id k) (select_where (in_state s) js) ≡ false → state_eq x.state s ≡ false → ⊥
    clash g t = ground arith

-- A job that the selection shows is the row of its id, and is in the state.
pub jobs_in_turn-found :
    (s : State) (k : String) (db : Db)
    → Distinct (ids db.jobs)
    → elem k (ids (jobs_in_turn s db)) ≡ true
    → (j : Job) × (job_of k db ≡ some j) × (j.state ≡ s)
unfolding jobs_in_turn
jobs_in_turn-found s k db d h = found-select s k db.jobs d (
    sym (any-sort_by in_turn (by_id k) (select_where (in_state s) db.jobs))
    ∙ sym (elem-keys (λ (j : Job). j.id) k (jobs_in_turn s db))
    ∙ h)

pub All-found :
    (js : List Job) (rows : List Job)
    → ((k : String) → elem k (ids rows) ≡ true → any_where (by_id k) js ≡ true)
    → All (λ k. any_where (by_id k) js ≡ true) (ids rows)
All-found js [] f = tt
All-found js (x ∷ rows) f =
    (f x.id (ground (arith, eq_iff x.id x.id)), All-found js rows (λ k h. f k (ground arith)))

none-elem :
    (i : String) (js : List Job) → elem i (ids js) ≡ false → All (λ y. str_eq y.id i ≡ false) js
none-elem i [] h = tt
none-elem i (x ∷ js) h = (ground arith, none-elem i js (ground arith))

found-behind :
    (x : Job) (js rows : List Job)
    → All (λ y. str_eq y.id x.id ≡ false) rows
    → All (λ y. find_where (by_id y.id) js ≡ some y) rows
    → All (λ y. find_where (by_id y.id) (x ∷ js) ≡ some y) rows
found-behind x js [] n h = tt
found-behind x js (y ∷ rows) n h =
    (ground (arith, eq_iff x.id y.id, eq_iff y.id x.id), found-behind x js rows n.1 h.1)

-- With unique ids each row is the row of its id.
pub rows-found :
    (js : List Job) → Distinct (ids js) → All (λ y. find_where (by_id y.id) js ≡ some y) js
rows-found [] d = tt
rows-found (x ∷ js) d =
    (rw (str_eq_refl x.id), found-behind x js js (none-elem x.id js d.0) (rows-found js d.1))

select-rows :
    (s : State) (P : Job → Type 0) (js : List Job)
    → All P js
    → All (λ j. P j × (j.state ≡ s)) (select_where (in_state s) js)
select-rows s P [] h = tt
select-rows s P (x ∷ js) h = elim (Bool-cases (state_eq x.state s)) [
  | inl e ↦ rw e ((h.0, state_eq→≡ x.state s e), select-rows s P js h.1)
  | inr e ↦ rw e (select-rows s P js h.1)
]

-- The selection shows rows of the table, in the state.
pub jobs_in_turn-rows :
    (s : State) (db : Db)
    → Distinct (ids db.jobs)
    → All (λ j. (job_of j.id db ≡ some j) × (j.state ≡ s)) (jobs_in_turn s db)
unfolding jobs_in_turn
jobs_in_turn-rows s db d = All-sort_by in_turn _ _ (select-rows s _ db.jobs (rows-found db.jobs d))

All-trivial : (js : List Job) → All (λ j. Unit {0}) js
All-trivial [] = tt
All-trivial (x ∷ js) = (tt, All-trivial js)

pub jobs_in_turn-state :
    (s : State) (db : Db) → All (λ j. Unit {0} × (j.state ≡ s)) (jobs_in_turn s db)
unfolding jobs_in_turn
jobs_in_turn-state s db =
    All-sort_by in_turn _ _ (select-rows s (λ j. Unit {0}) db.jobs (All-trivial db.jobs))

at-row :
    (s : State) (P : Job → Type 0) (k : String) (q : Job) (js : List Job)
    → find_where (by_id k) js ≡ some q
    → state_eq q.state s ≡ true
    → All P (select_where (in_state s) js)
    → P q
at-row s P k q [] h e a = cc
at-row s P k q (x ∷ js) h e a = elim (Bool-cases (str_eq x.id k)) [
  | inl i ↦
      let x≡q : x ≡ q = ground arith in
      let shown : state_eq x.state s ≡ true = ap (λ (r : Job). state_eq r.state s) x≡q ∙ e in
      let all : P x × All P (select_where (in_state s) js) = rw shown at a in rw (← x≡q) all.0
  | inr i ↦ elim (Bool-cases (state_eq x.state s)) [
    | inl t ↦
        let all : P x × All P (select_where (in_state s) js) = rw t at a in
        at-row s P k q js (ground arith) e all.1
    | inr t ↦
        let all : All P (select_where (in_state s) js) = rw t at a in
        at-row s P k q js (ground arith) e all
  ]
]

-- What holds of all that the selection shows holds of each row in the state.
pub jobs_in_turn-at :
    (s : State) (P : Job → Type 0) (k : String) (q : Job) (db : Db)
    → job_of k db ≡ some q
    → q.state ≡ s
    → All P (jobs_in_turn s db)
    → P q
unfolding jobs_in_turn
jobs_in_turn-at s P k q db h e a =
    at-row s P k q db.jobs h (ap (λ t. state_eq t s) e ∙ state_eq_refl s)
      (All-sort_by_inv in_turn P (select_where (in_state s) db.jobs) a)

any-select : (p : Job → Bool) (js : List Job) → any_where p (select_where p js) ≡ any_where p js
any-select p [] = refl
any-select p (x ∷ js) = ground (arith, any-select p js)

pub jobs_in_turn-some :
    (s : State) (db : Db)
    → any_where (in_state s) (jobs_in_turn s db) ≡ any_where (in_state s) db.jobs
unfolding jobs_in_turn
jobs_in_turn-some s db =
    any-sort_by in_turn (in_state s) (select_where (in_state s) db.jobs)
    ∙ any-select (in_state s) db.jobs

shown-select :
    (s : State) (k : String) (q : Job) (js : List Job)
    → find_where (by_id k) js ≡ some q
    → state_eq q.state s ≡ true
    → any_where (by_id k) (select_where (in_state s) js) ≡ true
shown-select s k q [] h e = cc
shown-select s k q (x ∷ js) h e = elim (Bool-cases (str_eq x.id k)) [
  | inl i ↦
      let x≡q : x ≡ q = ground arith in
      let shown : state_eq x.state s ≡ true = ap (λ (r : Job). state_eq r.state s) x≡q ∙ e in
      rw (shown, i)
  | inr i ↦ ground (arith, shown-select s k q js)
]

-- The id of each row in the state is in the selection.
pub jobs_in_turn-shows :
    (s : State) (k : String) (q : Job) (db : Db)
    → job_of k db ≡ some q
    → q.state ≡ s
    → elem k (ids (jobs_in_turn s db)) ≡ true
unfolding jobs_in_turn
jobs_in_turn-shows s k q db h e =
    elem-keys (λ (j : Job). j.id) k (jobs_in_turn s db)
    ∙ any-sort_by in_turn (by_id k) (select_where (in_state s) db.jobs)
    ∙ shown-select s k q db.jobs h (ap (λ t. state_eq t s) e ∙ state_eq_refl s)
