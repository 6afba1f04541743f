-- ===== src/Contracts/Protocol/Frames.antt =====
-- Which frames a submission may have.
use rotoweave.Base.{
  ℕ, suc, ◌≤◌, String, Bool, true, false, ◌≡◌, refl, not, List, [], ◌∷◌, inl, inr, Bool-cases,
  if◌then◌else◌, length, ◌==◌, arith,
}
use rotoweave.Contracts.Protocol.{
  InputFrame, accepted, count_differs, ordinals_differ, ids_repeat, range_from, same_numbers, holds,
  as_set, frame_ids, ordinals, validate_frames,
}

-- No text stands twice in the list.
abbrev pub IsDistinct : List String → Type 0
IsDistinct [] = Unit
IsDistinct (s ∷ ss) = (holds s ss ≡ false) × IsDistinct ss

length-as_set : (ss : List String) → length (as_set ss) ≤ length ss
unfolding as_set
length-as_set [] = omega arith
length-as_set (s ∷ ss) = elim (Bool-cases (holds s ss)) [
  | inl e ↦ rw e (omega (arith, length-as_set ss))
  | inr e ↦ rw e (omega (arith, length-as_set ss))
]

IsDistinct-as_set : (ss : List String) → length (as_set ss) ≡ length ss → IsDistinct ss
unfolding as_set
IsDistinct-as_set [] h = tt
IsDistinct-as_set (s ∷ ss) h = elim (Bool-cases (holds s ss)) [
  | inl e ↦
      let r : length (as_set ss) ≡ suc (length ss) = rw e at h in
      let absurd : holds s ss ≡ false = ground (arith, length-as_set ss) in
      (absurd, IsDistinct-as_set ss (omega (arith, length-as_set ss)))
  | inr e ↦
      let r : suc (length (as_set ss)) ≡ suc (length ss) = rw e at h in
      (e, IsDistinct-as_set ss (omega arith))
]

as_set-IsDistinct : (ss : List String) → IsDistinct ss → length (as_set ss) ≡ length ss
unfolding as_set
as_set-IsDistinct [] h = refl
as_set-IsDistinct (s ∷ ss) h = rw (h.0, as_set-IsDistinct ss h.1)

eq-same_numbers : (xs ys : List ℕ) → same_numbers xs ys ≡ true → xs ≡ ys
unfolding same_numbers
eq-same_numbers [] [] h = refl
eq-same_numbers [] (y ∷ ys) h = cc
eq-same_numbers (x ∷ xs) [] h = cc
eq-same_numbers (x ∷ xs) (y ∷ ys) h =
    let head : x ≡ y = ground arith in
    let later : same_numbers xs ys ≡ true = ground arith in
    let tail = eq-same_numbers xs ys later in cc

same_numbers_refl : (xs : List ℕ) → same_numbers xs xs ≡ true
unfolding same_numbers
same_numbers_refl [] = refl
same_numbers_refl (x ∷ xs) = ground (arith, same_numbers_refl xs)

-- What an accepted submission promises of its frames.
abbrev pub IsManifest : ℕ → List InputFrame → Type 0
IsManifest count frames =
    (count ≡ length frames) × (ordinals frames ≡ range_from 0 count) × IsDistinct (frame_ids frames)

length-frame_ids : (fs : List InputFrame) → length (frame_ids fs) ≡ length fs
length-frame_ids [] = refl
length-frame_ids (f ∷ fs) = rw (length-frame_ids fs)

accepted_tests :
    (a b c : Bool)
    → (if not a
        then count_differs
        else if not b
        then ordinals_differ
        else if not c
        then ids_repeat
        else accepted)
      ≡ accepted
    → (a ≡ true) × (b ≡ true) × (c ≡ true)
accepted_tests true true true h = (refl, refl, refl)
accepted_tests true true false h = cc
accepted_tests true false c h = cc
accepted_tests false b c h = cc

accepted-IsManifest :
    (count : ℕ) (fs : List InputFrame) → validate_frames count fs ≡ accepted → IsManifest count fs
unfolding validate_frames
accepted-IsManifest count fs h =
    let t = accepted_tests (count == length fs) _ _ h in
    let n : count ≡ length fs = ground (arith, t.0) in
    let whole : length (as_set (frame_ids fs)) ≡ count = ground (arith, t.2) in
    (
      n,
      eq-same_numbers (ordinals fs) (range_from 0 count) t.1,
      IsDistinct-as_set (frame_ids fs) (omega (arith, length-frame_ids fs)),
    )

IsManifest-accepted :
    (count : ℕ) (fs : List InputFrame) → IsManifest count fs → validate_frames count fs ≡ accepted
unfolding validate_frames
IsManifest-accepted count fs m =
    let a : (count == length fs) ≡ true = ground (arith, m.0) in
    let b : same_numbers (ordinals fs) (range_from 0 count) ≡ true =
      rw m.1 (same_numbers_refl (range_from 0 count)) in
    let whole : length (as_set (frame_ids fs)) ≡ length (frame_ids fs) =
      as_set-IsDistinct (frame_ids fs) m.2 in
    let c : (length (as_set (frame_ids fs)) == count) ≡ true =
      ground (arith, whole, length-frame_ids fs, m.0) in
    rw (a, b, c)

-- `validate_frames` accepts a submission just where the count is the number of its frames, the ordinals
-- are 0, 1, 2 and so on in the order of the frames, and no two frames have one identifier.
pub validate_frames_lem :
    (count : ℕ) (fs : List InputFrame)
    → (validate_frames count fs ≡ accepted → IsManifest count fs)
      × (IsManifest count fs → validate_frames count fs ≡ accepted)
validate_frames_lem count fs = (accepted-IsManifest count fs, IsManifest-accepted count fs)
