-- ===== src/Client/Runtime/Recovery.antt =====
-- What `recover_jobs` leaves for a service that starts again.
use rotoweave.Base.{
  ℕ, String, Bool, true, false, ◌≡◌, refl, not, ◌&&◌, ◌||◌, List, [], ◌∷◌, inl, inr, Bool-cases,
  str_eq, str_eq_refl, select_where, update_where, arith, eq_iff, any_where, All, map, leb,
}
use rotoweave.Base.Order.{sort_by}
use rotoweave.Base.Order.Laws.{All-sort_by_inv}
use rotoweave.Client.Runtime.{
  Status, queued, running, cancelling, completed, failed, cancelled, status_eq, Job, in_workspace,
  owned, given_up_row, in_status, recovered_row, is_unfinished, recover_each, recover_jobs,
  unfinished_ids,
}

abbrev pub member : String → List String → Bool
member i ids = any_where (λ k. str_eq k i) ids

-- `completed`, `failed` or `cancelled`.
unfoldable pub is_over : Status → Bool
is_over completed = true
is_over failed = true
is_over cancelled = true
is_over _ = false

-- A job of the workspace is over, or it waits and its identifier is among `ids`.
abbrev pub is_settled : String → List String → Job → Bool
is_settled w ids j =
    not (in_workspace w j) || is_over j.status || (status_eq j.status queued && member j.id ids)

-- The same where the jobs of `left` are still to be queued.
abbrev is_known : String → List String → List String → Job → Bool
is_known w ids left j =
    not (in_workspace w j)
    || is_over j.status
    || (member j.id ids && (status_eq j.status queued || member j.id left))

All-update :
    (P Q : Job → Type 0) (p : Job → Bool) (f : Job → Job)
    → ((j : Job) → P j → p j ≡ true → Q (f j))
    → ((j : Job) → P j → p j ≡ false → Q j)
    → (js : List Job) → All P js
    → All Q (update_where p f js)
All-update P Q p f hit miss [] h = tt
All-update P Q p f hit miss (x ∷ xs) h = elim (Bool-cases (p x)) [
  | inl e ↦ rw e (hit x h.0 e, All-update P Q p f hit miss xs h.1)
  | inr e ↦ rw e (miss x h.0 e, All-update P Q p f hit miss xs h.1)
]

All-imp : (P Q : Job → Type 0) → ((j : Job) → P j → Q j) → (js : List Job) → All P js → All Q js
All-imp P Q imp [] h = tt
All-imp P Q imp (x ∷ xs) h = (imp x h.0, All-imp P Q imp xs h.1)

module _ (w : String) (ids : List String) where
  known-hit :
      (left : List String) (i : String) (now : ℕ) (j : Job)
      → member i ids ≡ true
      → owned w i j ≡ true
      → is_known w ids left (recovered_row now j) ≡ true
  unfolding status_eq is_over
  known-hit left i now j m o = ground (arith, eq_iff j.id i)

  known-miss :
      (left : List String) (i : String) (j : Job)
      → is_known w ids (i ∷ left) j ≡ true
      → owned w i j ≡ false
      → is_known w ids left j ≡ true
  known-miss left i j k o = ground (arith, eq_iff i j.id, eq_iff j.id i)

  known-recover_each :
      (left : List String) (now : ℕ) (db : List Job)
      → All (λ i. member i ids ≡ true) left
      → All (λ j. is_known w ids left j ≡ true) db
      → All (λ j. is_known w ids [] j ≡ true) (recover_each w left now db)
  unfolding recover_each
  known-recover_each [] now db h k = k
  known-recover_each (i ∷ is) now db h k = known-recover_each is now _ h.1 (
      All-update (λ j. is_known w ids (i ∷ is) j ≡ true) (λ j. is_known w ids is j ≡ true)
        (owned w i) (recovered_row now) (λ j q o. known-hit is i now j h.0 o)
        (λ j q o. known-miss is i j q o) db k)

  settled-known : (j : Job) → is_known w ids [] j ≡ true → is_settled w ids j ≡ true
  settled-known j h = ground arith

member-All : (xs : List String) → All (λ i. member i xs ≡ true) xs
member-All [] = tt
member-All (x ∷ xs) = (rw (str_eq_refl x), weaken xs (member-All xs))
  where
    weaken :
        (is : List String)
        → All (λ i. member i xs ≡ true) is
        → All (λ i. member i (x ∷ xs) ≡ true) is
    weaken [] h = tt
    weaken (i ∷ is) h = (ground arith, weaken is h.1)

ids-All :
    (xs js : List Job)
    → All (λ i. member i (map (λ (j : Job). j.id) xs) ≡ true) (map (λ (j : Job). j.id) js)
    → All (λ j. member j.id (map (λ (j : Job). j.id) xs) ≡ true) js
ids-All xs [] h = tt
ids-All xs (j ∷ js) h = (h.0, ids-All xs js h.1)

All-selected :
    (p : Job → Bool) (P : Job → Type 0) (js : List Job)
    → All P (select_where p js)
    → All (λ j. p j ≡ true → P j) js
All-selected p P [] h = tt
All-selected p P (x ∷ xs) h = elim (Bool-cases (p x)) [
  | inl e ↦
      let r : P x × All P (select_where p xs) = rw e at h in (λ q. r.0, All-selected p P xs r.1)
  | inr e ↦
      let r : All P (select_where p xs) = rw e at h in
      (λ q. (let absurd : false ≡ true = rw e at q in cc), All-selected p P xs r)
]

kinds :
    (s : Status)
    → (is_over s || (status_eq s queued || status_eq s running) || status_eq s cancelling) ≡ true
unfolding status_eq is_over
kinds queued = refl
kinds running = refl
kinds cancelling = refl
kinds completed = refl
kinds failed = refl
kinds cancelled = refl

All-true : (js : List Job) → All (λ j. Unit {0}) js
All-true [] = tt
All-true (j ∷ js) = (tt, All-true js)

module _ (w : String) where
  known-first :
      (ids : List String) (j : Job)
      → in_status w cancelling j ≡ false
      → ((in_workspace w j && is_unfinished j) ≡ true → member j.id ids ≡ true)
      → is_known w ids ids j ≡ true
  unfolding is_unfinished
  known-first ids j calm waits = ground (arith, kinds j.status)

  known-rows :
      (ids : List String) (js : List Job)
      → All (λ j. in_status w cancelling j ≡ false) js
      → All (λ j. (in_workspace w j && is_unfinished j) ≡ true → member j.id ids ≡ true) js
      → All (λ j. is_known w ids ids j ≡ true) js
  known-rows ids [] h k = tt
  known-rows ids (j ∷ js) h k = (known-first ids j h.0 k.0, known-rows ids js h.1 k.1)

  given_up-calm : (now : ℕ) (j : Job) → in_status w cancelling (given_up_row now j) ≡ false
  unfolding status_eq
  given_up-calm now j = ground arith

  unfinished_ids-All :
      (js : List Job)
      → All
          (λ j.
            (in_workspace w j && is_unfinished j) ≡ true → member j.id (unfinished_ids w js) ≡ true)
          js
  unfinished_ids-All js =
      let chosen = select_where (λ j. in_workspace w j && is_unfinished j) js in
      let sorted = sort_by (λ (a b : Job). leb a.created_at b.created_at) chosen in
      All-selected (λ j. in_workspace w j && is_unfinished j)
        (λ j. member j.id (unfinished_ids w js) ≡ true) js
        (All-sort_by_inv (λ (a b : Job). leb a.created_at b.created_at)
          (λ j. member j.id (unfinished_ids w js) ≡ true) chosen
          (ids-All sorted sorted (member-All (unfinished_ids w js))))

-- After `recover_jobs`, each job of the workspace either is over or waits and has its identifier among
-- those that the call returns, so no job is left running, cancelling or waiting unsubmitted.
pub recover_jobs_lem :
    (w : String) (now : ℕ) (db : List Job)
    → All (λ j. is_settled w (recover_jobs w now db).0 j ≡ true) (recover_jobs w now db).1
unfolding recover_jobs
recover_jobs_lem w now db =
    let db' = update_where (in_status w cancelling) (given_up_row now) db in
    let ids = unfinished_ids w db' in
    let calm : All (λ j. in_status w cancelling j ≡ false) db' =
      All-update (λ j. Unit {0}) (λ j. in_status w cancelling j ≡ false) (in_status w cancelling)
        (given_up_row now) (λ j q e. given_up-calm w now j) (λ j q e. e) db (All-true db) in
    All-imp (λ j. is_known w ids [] j ≡ true) (λ j. is_settled w ids j ≡ true) (settled-known w ids)
      (recover_each w ids now db')
      (known-recover_each w ids ids now db' (member-All ids)
        (known-rows w ids db' calm (unfinished_ids-All w db')))
