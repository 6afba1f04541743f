-- ===== src/Contracts/Protocol/Tests.antt =====
-- Tests of the frames of a submission, and their theorem at a concrete input.
use rotoweave.Base.{ℕ, String, ◌≡◌, refl, List, [], ◌∷◌}
use rotoweave.Contracts.Protocol.{
  InputFrame, accepted, ordinals_differ, ids_repeat, same_numbers, as_set, validate_frames,
}
use rotoweave.Contracts.Protocol.Frames.{IsManifest, validate_frames_lem}

abbrev frame : String → ℕ → InputFrame
frame i n = record {
  frame_id = i;
  ordinal = n;
  pts_us = 0;
  duration_us = 40_000;
  width = 64;
  height = 64;
  archive_path = "frames/000000.png";
  sha256 = "ab12";
}

abbrev two_frames : List InputFrame
two_frames = frame "f0" 0 ∷ frame "f1" 1 ∷ []

accepts : validate_frames 2 two_frames ≡ accepted
unfolding validate_frames same_numbers as_set
accepts = refl

order_matters : validate_frames 2 (frame "f1" 1 ∷ frame "f0" 0 ∷ []) ≡ ordinals_differ
unfolding validate_frames same_numbers as_set
order_matters = refl

ids_matter : validate_frames 2 (frame "f0" 0 ∷ frame "f0" 1 ∷ []) ≡ ids_repeat
unfolding validate_frames same_numbers as_set
ids_matter = refl

validate_frames_lem_example :
    (validate_frames 2 two_frames ≡ accepted → IsManifest 2 two_frames)
    × (IsManifest 2 two_frames → validate_frames 2 two_frames ≡ accepted)
validate_frames_lem_example = validate_frames_lem 2 two_frames
