-- ===== src/Server/Startup/Progress.antt =====
-- What every sequence of updates keeps of the stages of a start.
use rotoweave.Base.{
  ℕ, String, Bool, true, ◌≡◌, refl, ◌∙◌, subst, ◌&&◌, ◌||◌, not, Option, none, some, List, [], ◌∷◌,
  map, inl, inr, Bool-cases, Option-cases, if◌then◌else◌, is_some, or_else, str_eq, any_where, All,
  arith, eq_iff,
}
use rotoweave.Base.Signed.{ℤ, pos, negsuc, leb_ℤ}
use rotoweave.Server.Startup.{
  StageState, pending, running, passed, warning, failed, Stage, Tracker, Update, stage_ids,
  pending_stage, tracker, starts, ends, succeeds, counted, stage_row, update_stage, stage_before,
  updated, update,
}

-- A history of updates; one of an unknown stage raises and leaves the tracker.
unfoldable pub run : List (ℕ × Update) → Tracker → Tracker
unfolding update
run [] t = t
run ((now, u) ∷ us) t = run us (or_else (update u now t) t)

-- A stage that has ended has its time of completion, one with that has its time of start, and its
-- counts of files are not negative.
abbrev pub is_timed : Stage → Bool
is_timed s =
    (not (ends s.state) || is_some s.completed_at)
    && (not (is_some s.completed_at) || is_some s.started_at)
    && leb_ℤ (pos 0) s.files_verified
    && leb_ℤ (pos 0) s.files_total

abbrev pub ids : List Stage → List String
ids ss = map (λ (s : Stage). s.id) ss

counted-pos :
    (n : Option ℤ) (old : ℤ) → leb_ℤ (pos 0) old ≡ true → leb_ℤ (pos 0) (counted n old) ≡ true
counted-pos none old h = h
counted-pos (some (pos n)) old h = ground arith
counted-pos (some (negsuc n)) old h = refl

ends-starts : (s : StageState) → ends s ≡ true → starts s ≡ true
unfolding ends starts
ends-starts pending h = h
ends-starts running h = refl
ends-starts passed h = refl
ends-starts warning h = refl
ends-starts failed h = refl

stage_row-is_timed :
    (u : Update) (now : ℕ) (s : Stage) → is_timed s ≡ true → is_timed (stage_row u now s) ≡ true
stage_row-is_timed u now s h =
    timed (ends u.state) (starts u.state) now s.started_at s.completed_at (ends s.state) _ _ _ _
      (ends-starts u.state) (counted-pos u.files_verified s.files_verified)
      (counted-pos u.files_total s.files_total) h
  where
    timed :
        (e st : Bool) (now : ℕ) (a c : Option ℕ) (e0 v v' f f' : Bool)
        → (e ≡ true → st ≡ true)
        → (v ≡ true → v' ≡ true)
        → (f ≡ true → f' ≡ true)
        → ((not e0 || is_some c) && (not (is_some c) || is_some a) && v && f) ≡ true
        → ((not e || is_some (if e then some now else c))
            && (not (is_some (if e then some now else c))
                || is_some (if not (is_some a) && st then some now else a))
            && v'
            && f')
          ≡ true
    timed e st now a c e0 v v' f f' h1 h2 h3 h = ground arith

-- What an update keeps of the stages.
abbrev IsKept : List Stage → List Stage → Type 0
IsKept ss ss' = (ids ss' ≡ ids ss) × All (λ s. is_timed s ≡ true) ss'

-- The stage `ready` has its time of completion.
abbrev pub is_ready : Stage → Bool
is_ready s = str_eq s.id "ready" && is_some s.completed_at

is_some-before :
    (s : Stage) (rest : Option (List Stage)) → is_some (stage_before s rest) ≡ is_some rest
is_some-before s none = refl
is_some-before s (some ss) = refl

succeeds-ends : (s : StageState) → succeeds s ≡ true → ends s ≡ true
unfolding succeeds ends
succeeds-ends pending h = h
succeeds-ends running h = h
succeeds-ends passed h = refl
succeeds-ends warning h = refl
succeeds-ends failed h = refl

either : (a b c d : Bool) → ((b || c) ≡ true → d ≡ true) → ((a || b) || c) ≡ true → (a || d) ≡ true
either a b c d later h = ground arith

stage_row-ready :
    (u : Update) (now : ℕ) (s : Stage) (ss : List Stage)
    → str_eq s.id u.stage_id ≡ true
    → (any_where is_ready (s ∷ ss) || (str_eq u.stage_id "ready" && succeeds u.state)) ≡ true
    → any_where is_ready (stage_row u now s ∷ ss) ≡ true
stage_row-ready u now s ss q h = ground (arith, eq_iff s.id u.stage_id, succeeds-ends u.state)

module _ (u : Update) (now : ℕ) where
  update_stage-IsKept :
      (ss ss' : List Stage)
      → update_stage u now ss ≡ some ss'
      → All (λ s. is_timed s ≡ true) ss
      → IsKept ss ss'
  unfolding update_stage
  update_stage-IsKept [] ss' e h = let absurd : none ≡ some ss' = e in cc
  update_stage-IsKept (s ∷ ss) ss' e h = elim (Bool-cases (str_eq s.id u.stage_id)) [
    | inl q ↦
        let r : some (stage_row u now s ∷ ss) ≡ some ss' = rw q at e in
        let same : stage_row u now s ∷ ss ≡ ss' = cc in
        subst (λ xs. IsKept (s ∷ ss) xs) same (refl, (stage_row-is_timed u now s h.0, h.1))
    | inr q ↦ elim (Option-cases (update_stage u now ss)) [
      | inl n ↦ let r : none ≡ some ss' = rw (q, n) at e in cc
      | inr (rest, n) ↦
          let r : some (s ∷ rest) ≡ some ss' = rw (q, n) at e in
          let same : s ∷ rest ≡ ss' = cc in
          let kept = update_stage-IsKept ss rest n h.1 in
          subst (λ xs. IsKept (s ∷ ss) xs) same (rw kept.0, (h.0, kept.1))
    ]
  ]

  update_stage-known :
      (ss : List Stage)
      → is_some (update_stage u now ss) ≡ any_where (λ i. str_eq i u.stage_id) (ids ss)
  unfolding update_stage
  update_stage-known [] = refl
  update_stage-known (s ∷ ss) = elim (Bool-cases (str_eq s.id u.stage_id)) [
    | inl q ↦ rw q
    | inr q ↦ rw q (is_some-before s (update_stage u now ss) ∙ update_stage-known ss)
  ]

  update_stage-ready :
      (ss ss' : List Stage)
      → update_stage u now ss ≡ some ss'
      → (any_where is_ready ss || (str_eq u.stage_id "ready" && succeeds u.state)) ≡ true
      → any_where is_ready ss' ≡ true
  unfolding update_stage
  update_stage-ready [] ss' e h = let absurd : none ≡ some ss' = e in cc
  update_stage-ready (s ∷ ss) ss' e h = elim (Bool-cases (str_eq s.id u.stage_id)) [
    | inl q ↦
        let r : some (stage_row u now s ∷ ss) ≡ some ss' = rw q at e in
        let same : stage_row u now s ∷ ss ≡ ss' = cc in
        subst (λ xs. any_where is_ready xs ≡ true) same (stage_row-ready u now s ss q h)
    | inr q ↦ elim (Option-cases (update_stage u now ss)) [
      | inl n ↦ let r : none ≡ some ss' = rw (q, n) at e in cc
      | inr (rest, n) ↦
          let r : some (s ∷ rest) ≡ some ss' = rw (q, n) at e in
          let same : s ∷ rest ≡ ss' = cc in
          subst (λ xs. any_where is_ready xs ≡ true) same
            (either (is_ready s) (any_where is_ready ss)
              (str_eq u.stage_id "ready" && succeeds u.state) (any_where is_ready rest)
              (update_stage-ready ss rest n) h)
    ]
  ]

-- The stages of a start are the eight of the source, in its order, each timed; and the tracker is
-- complete only where the stage `ready` is.
abbrev pub IsTimed : Tracker → Type 0
IsTimed t =
    (ids t.stages ≡ stage_ids)
    × All (λ s. is_timed s ≡ true) t.stages
    × ((not (is_some t.completed_at) || any_where is_ready t.stages) ≡ true)

updated-IsTimed :
    (u : Update) (now : ℕ) (t : Tracker) (o : Option (List Stage))
    → update_stage u now t.stages ≡ o
    → IsTimed t
    → IsTimed (or_else (updated u now t o) t)
updated-IsTimed u now t none e v = v
updated-IsTimed u now t (some ss) e v =
    let kept = update_stage-IsKept u now t.stages ss e v.1 in
    (
      kept.0 ∙ v.0,
      kept.1,
      completed (str_eq u.stage_id "ready" && succeeds u.state) t.completed_at _ _
          (update_stage-ready u now t.stages ss e) v.2,
    )
  where
    completed :
        (b : Bool) (c : Option ℕ) (before after : Bool)
        → ((before || b) ≡ true → after ≡ true)
        → (not (is_some c) || before) ≡ true
        → (not (is_some (if b then some now else c)) || after) ≡ true
    completed b c before after later h = ground arith

IsTimed-run : (us : List (ℕ × Update)) (t : Tracker) → IsTimed t → IsTimed (run us t)
unfolding run
IsTimed-run [] t v = v
IsTimed-run ((now, u) ∷ us) t v =
    IsTimed-run us _ (updated-IsTimed u now t (update_stage u now t.stages) refl v)

pending_timed : (is : List String) → All (λ s. is_timed s ≡ true) (map pending_stage is)
unfolding ends
pending_timed [] = tt
pending_timed (i ∷ is) = (refl, pending_timed is)

-- After any history of updates, a new tracker still has the eight stages in the source's order; each
-- ended stage has a time of completion, each of these a time of start, and no count of files is
-- negative; and the tracker is complete only where the stage `ready` has a time of completion.
pub run-IsTimed : (us : List (ℕ × Update)) (start : ℕ) → IsTimed (run us (tracker start))
unfolding ends
run-IsTimed us start = IsTimed-run us (tracker start) (refl, pending_timed stage_ids, refl)

is_some-updated :
    (u : Update) (now : ℕ) (t : Tracker) (o : Option (List Stage))
    → is_some (updated u now t o) ≡ is_some o
is_some-updated u now t none = refl
is_some-updated u now t (some ss) = refl

-- An update of one of the tracker's stages does not raise, and an update of another raises.
pub update_lem :
    (u : Update) (now : ℕ) (t : Tracker)
    → is_some (update u now t) ≡ any_where (λ i. str_eq i u.stage_id) (ids t.stages)
unfolding update
update_lem u now t =
    is_some-updated u now t (update_stage u now t.stages) ∙ update_stage-known u now t.stages
