-- ===== src/Client/Workspace/Profiles/Tests.antt =====
-- Tests of the size profiles, and their theorem at a concrete input.
use rotoweave.Base.{String, ◌≡◌, refl, none, some, List, [], ◌∷◌}
use rotoweave.Client.Workspace.Profiles.{
  SizeProfile, refused, taken_name, absent, ProfileEdit, creates, updates, deletes,
  create_size_profile, delete_size_profile, edits,
}
use rotoweave.Client.Workspace.Profiles.Kept.{AreProfiles, edits-AreProfiles}

abbrev same_text : String → String
same_text s = s

abbrev profile : String → String → SizeProfile
profile i n = record {
  id = i;
  name = n;
  normalized_name = n;
  width = 1_000_000;
  height = 2_000_000;
  unit_mode = "unity";
}

abbrev profiles : List SizeProfile
profiles = profile "siz1" "small" ∷ profile "siz2" "large" ∷ []

refuses_taken :
    create_size_profile same_text same_text (profile "siz3" "large") profiles ≡ refused taken_name
unfolding create_size_profile
refuses_taken = refl

nothing_to_delete : delete_size_profile "siz3" profiles ≡ absent
unfolding delete_size_profile
nothing_to_delete = refl

-- The second change is refused: the other profile has the name.
abbrev changes : List ProfileEdit
changes =
    creates (profile "siz3" "huge")
    ∷ updates "siz1" (record { name = some "huge"; width = none; height = none; unit_mode = none })
    ∷ updates "siz1"
        (record { name = some "tiny"; width = some 5; height = none; unit_mode = some "pixels" })
    ∷ deletes "siz2"
    ∷ []

edits-AreProfiles_example : AreProfiles (edits same_text same_text changes profiles)
edits-AreProfiles_example =
    edits-AreProfiles same_text same_text changes profiles
      (((refl, refl, refl, refl), ((refl, refl, refl, refl), tt)), (refl, (refl, tt)))
