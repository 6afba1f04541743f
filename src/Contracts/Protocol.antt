-- ===== src/Contracts/Protocol.antt =====
-- The frames of a submission, `RemoteInputFrame` and `RemoteJobSubmission.validate_frames`
-- (RotoWeaveContracts/contracts/remote_protocol.py), after the checks of the single fields.
pub mod Frames
mod Tests
use rotoweave.Base.{
  ℕ, zero, suc, String, Bool, true, false, not, ◌&&◌, List, [], ◌∷◌, map, if◌then◌else◌, length,
  any_where, str_eq, ◌==◌,
}

pub record InputFrame : Type 0 where
  pub frame_id : String
  pub ordinal : ℕ
  pub pts_us : ℕ
  pub duration_us : ℕ
  pub width : ℕ
  pub height : ℕ
  pub archive_path : String
  pub sha256 : String

-- How the validator ends: a ValueError for each test, or the submission.
pub data Verdict : Type 0 where
  accepted count_differs ordinals_differ ids_repeat : Verdict

-- list(range(first, first + n))
abbrev pub range_from : ℕ → ℕ → List ℕ
range_from first zero = []
range_from first (suc n) = first ∷ range_from (suc first) n

unfoldable pub same_numbers : List ℕ → List ℕ → Bool
same_numbers [] [] = true
same_numbers (x ∷ xs) (y ∷ ys) = x == y && same_numbers xs ys
same_numbers _ _ = false

abbrev pub holds : String → List String → Bool
holds s ss = any_where (λ k. str_eq k s) ss

-- The members of a set comprehension, each once.
unfoldable pub as_set : List String → List String
as_set [] = []
as_set (s ∷ ss) = let rest = as_set ss in if holds s ss then rest else s ∷ rest

abbrev pub frame_ids : List InputFrame → List String
frame_ids fs = map (λ (f : InputFrame). f.frame_id) fs

abbrev pub ordinals : List InputFrame → List ℕ
ordinals fs = map (λ (f : InputFrame). f.ordinal) fs

unfoldable pub validate_frames : ℕ → List InputFrame → Verdict
unfolding same_numbers as_set
validate_frames count frames =
    if not (count == length frames)
    then count_differs
    else if not (same_numbers (ordinals frames) (range_from 0 count))
    then ordinals_differ
    else if not (length (as_set (frame_ids frames)) == count)
    then ids_repeat
    else accepted
