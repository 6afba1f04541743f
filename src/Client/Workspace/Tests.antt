-- ===== src/Client/Workspace/Tests.antt =====
-- Tests of the workspace's document, and its theorems at concrete inputs.
use rotoweave.Base.{
  ◌≡◌, refl, String, Bool, true, false, none, some, List, [], ◌∷◌, All, str_eq, find_where,
}
use rotoweave.Base.Signed.{pos}
use rotoweave.Server.Logging.{bool, number, text, object, end, field, set_default}
use rotoweave.Client.Workspace.Schema.{
  ActionSetting, not_exported, Character, MaterialSource, VariantFrame, MaterialVariant, FrameRef,
  Action, Domain, revision_conflict, still_referenced, Result, ok, failed_by, is_variant,
}
use rotoweave.Client.Workspace.Migration.{
  Migrated, map_frames, migrate_ref, migrate_actions, migrate_to, migrate_each, migrate_action_refs,
}
use rotoweave.Client.Workspace.Migration.Frames.{is_stale}
use rotoweave.Client.Workspace.Migration.Shows.{
  view, AllDistinct, view-migrate_action_refs, AllFresh-migrate_to,
}
use rotoweave.Client.Workspace.Mutations.{
  create_character, rename_character, create_source, append_variant, create_action, update_action,
  replace_refs, append_refs, set_export_state,
}
use rotoweave.Client.Workspace.Mutations.Deletions.{
  delete_character, delete_action, cleanup_variant, delete_source,
}
use rotoweave.Client.Workspace.Mutations.Settings.{
  Blocks, Changes, merge, merge_value, merge_settings, merge_character, initialize, update_settings,
}
use rotoweave.Client.Workspace.Commit.{
  Store, Disk, validates, mutate_domain, update_settings_edit, create_action_edit,
  delete_action_edit, apply_edit, Request, run,
}
use rotoweave.Client.Workspace.Removal.{
  LacksVariant, LacksSource, cleanup_variant_lem, delete_source_lem,
}
use rotoweave.Client.Workspace.Undo.Sources.{delete_source-create_source}
use rotoweave.Client.Workspace.Undo.Actions.{delete_action-create_action}
use rotoweave.Client.Workspace.Saved.{IsSound, mutate-mutate, run-IsSound}

-- To unfold this is to unfold the code that the tests run.
program : Unit {0}
unfolding map_frames migrate_ref migrate_actions migrate_each migrate_action_refs create_character
    rename_character delete_character create_source append_variant create_action update_action
    delete_action replace_refs append_refs cleanup_variant delete_source set_export_state
    mutate_domain apply_edit run
program = tt

abbrev hero : Character
hero = record {
  id = "hero";
  name = "Hero";
  action_ids = "walk" ∷ [];
  source_ids = "clip" ∷ [];
  default_action_id = some "walk";
  action_settings = [];
  settings = end;
  export_state = record { status = not_exported; current_atlas = none };
}

abbrev clip : MaterialSource
clip = record {
  id = "clip";
  character_id = "hero";
  display_name = "Clip";
  details = end;
  frames = record { id = "s1"; asset = end } ∷ record { id = "s2"; asset = end } ∷ [];
  variant_ids = "old" ∷ "new" ∷ [];
}

abbrev variant : String → List VariantFrame → MaterialVariant
variant i fs = record {
  id = i;
  source_id = "clip";
  kind = "basic";
  settings = end;
  frames = fs;
  migrated_count = 0;
  migrated_actions = [];
}

abbrev frame : String → String → VariantFrame
frame i source = record { id = i; source_frame_id = source; asset = end }

abbrev ref : String → String → FrameRef
ref variant frame = record {
  id = "r";
  variant_id = variant;
  frame_id = frame;
  duration = text "0.1";
  enabled = true;
  transform = end;
}

abbrev walk : List FrameRef → Action
walk refs = record {
  id = "walk";
  character_id = "hero";
  name = "Walk";
  preview_loop = true;
  loop = true;
  frame_refs = refs;
}

abbrev document : List FrameRef → Domain
document refs = record {
  revision_id = "rev_1";
  characters = hero ∷ [];
  actions = walk refs ∷ [];
  sources = clip ∷ [];
  variants =
      variant "old" (frame "o1" "s1" ∷ frame "o2" "s2" ∷ [])
      ∷ variant "new" (frame "n2" "s2" ∷ frame "n1" "s1" ∷ [])
      ∷ [];
}

abbrev after_move : Migrated
after_move = record { actions = walk (ref "new" "n2" ∷ []) ∷ []; count = 1; affected = "walk" ∷ [] }

moves :
    migrate_action_refs (some "clip") (some "new") false (document (ref "old" "o2" ∷ []))
    ≡ ok after_move
unfolding program
moves = refl

moves_to : migrate_to clip false "new" (document (ref "old" "o2" ∷ [])) ≡ ok after_move
unfolding program
moves_to = refl

keeps_used_variant :
    cleanup_variant "old" true (document (ref "old" "o2" ∷ [])) ≡ failed_by still_referenced
unfolding program
keeps_used_variant = refl

abbrev used : Domain
used = document (ref "new" "n2" ∷ [])

abbrev distinct : (refs : List FrameRef) → AllDistinct (document refs).variants
distinct refs = ((refl, (refl, tt)), ((refl, (refl, tt)), tt))

view-migrate_action_refs_example :
    view (document []).variants after_move.actions
    ≡ view (document []).variants (document (ref "old" "o2" ∷ [])).actions
view-migrate_action_refs_example =
    view-migrate_action_refs (some "clip") (some "new") false (document (ref "old" "o2" ∷ []))
      after_move (distinct []) moves

AllFresh-migrate_to_example :
    (v : MaterialVariant) × (find_where (is_variant "new") (document []).variants ≡ some v)
    × All
        (λ (a : Action).
          str_eq a.character_id "hero" ≡ true
          → All
              (λ r. is_stale (document []).variants clip.variant_ids "new" v.frames r ≡ false)
              a.frame_refs)
        after_move.actions
AllFresh-migrate_to_example =
    AllFresh-migrate_to clip false "new" (document (ref "old" "o2" ∷ [])) after_move (distinct [])
      moves_to

abbrev cleaned : Domain
cleaned = record used {
  sources = record clip { variant_ids = "new" ∷ [] } ∷ [];
  variants = variant "new" (frame "n2" "s2" ∷ frame "n1" "s1" ∷ []) ∷ [];
}

cleans : cleanup_variant "old" true used ≡ ok cleaned
unfolding program
cleans = refl

cleanup_variant_lem_example :
    (true ≡ true)
    × LacksVariant "old" cleaned
    × (cleaned.actions ≡ used.actions)
    × (view cleaned.variants cleaned.actions ≡ view used.variants used.actions)
cleanup_variant_lem_example = cleanup_variant_lem "old" true used cleaned cleans

abbrev unread : Domain
unread = document []

abbrev emptied : Domain
emptied = record unread {
  characters = record hero { source_ids = [] } ∷ [];
  sources = [];
  variants = [];
}

deletes : delete_source "clip" true true unread ≡ ok emptied
unfolding program
deletes = refl

delete_source_lem_example :
    (true ≡ true)
    × LacksSource "clip" emptied
    × (emptied.actions ≡ unread.actions)
    × (view emptied.variants emptied.actions ≡ view unread.variants unread.actions)
delete_source_lem_example = delete_source_lem "clip" true true unread emptied deletes

abbrev same_text : String → String
same_text s = s

-- A request that enlarges the page of the atlas.
abbrev enlarge : Changes
enlarge = record {
  fields =
      field "delivery"
        (object (field "atlas" (object (field "maxSize" (number (pos 8192)) end)) end)) end;
  default_action = none;
  action_settings = [];
}

abbrev blocks : Blocks
blocks = record {
  calibration = object end;
  pixels_per_unit = number (pos 100);
  shadow = object end;
  delivery = object (
      field "atlas"
        (object (field "maxSize" (number (pos 4096)) (field "padding" (number (pos 2)) end))) end);
}

abbrev enlarged : Character
enlarged = record hero {
  settings = field "calibration" (object (field "pixelsPerUnit" (number (pos 100)) end)) (
      field "shadow" (object end) (
        field "delivery"
          (object (
            field "atlas"
              (object (field "maxSize" (number (pos 8192)) (field "padding" (number (pos 2)) end)))
              end))
          end));
}

settings_merged :
    update_settings blocks "hero" enlarge used ≡ ok (record used { characters = enlarged ∷ [] })
unfolding program update_settings merge_character merge merge_value merge_settings initialize
    set_default
settings_merged = refl

-- A default action that the character does not list passes the check of its settings.
set_by_hand :
    apply_edit same_text
      (update_settings_edit blocks "hero" (record enlarge { default_action = some (some "gone") }))
      used
    ≡ ok (record used { characters = record enlarged { default_action_id = some "gone" } ∷ [] })
unfolding program update_settings merge_character merge merge_value merge_settings initialize
    set_default
set_by_hand = refl

-- A digest that tells the characters apart by number, and a validator that wants a revision.
abbrev digest : Domain → String
digest d = elim d.actions [ [] ↦ "none" | ◌∷◌ a rest ↦ a.name ]

abbrev is_valid : Domain → Bool
is_valid d = elim (str_eq d.revision_id "") [ true ↦ false | false ↦ true ]

abbrev store : Store
store = record { writable = true; domain = used; content_hash = "Walk" }

abbrev disk : Disk
disk = record { same_document = true; same_assets = true }

abbrev setting : ActionSetting
setting = object (field "runtimeLoop" (bool true) end)

abbrev without_walk : Domain → Result Domain
without_walk = apply_edit same_text (delete_action_edit "walk")

abbrev stored : Store
stored = record store {
  domain = record used {
    revision_id = "rev_2";
    characters = record hero { action_ids = []; default_action_id = none } ∷ [];
    actions = [];
  };
  content_hash = "none";
}

saves : mutate_domain digest is_valid disk (some "rev_1") "rev_2" without_walk store ≡ ok stored
unfolding program
saves = refl

mutate-mutate_example :
    mutate_domain digest is_valid disk (some "rev_1") "rev_3" without_walk stored
    ≡ failed_by revision_conflict
mutate-mutate_example =
    mutate-mutate digest is_valid disk disk "rev_1" "rev_2" "rev_3" without_walk without_walk store
      stored refl saves refl refl

abbrev requests : List Request
requests =
    record {
      disk = disk;
      expected = none;
      revision = "rev_2";
      edit = create_action_edit setting "run" "hero" "Run";
    }
    ∷ record {
      disk = disk;
      expected = some "rev_1";
      revision = "rev_3";
      edit = delete_action_edit "walk";
    }
    ∷ record {
      disk = disk;
      expected = none;
      revision = "rev_4";
      edit = update_settings_edit blocks "hero" enlarge;
    }
    ∷ []

run-IsSound_example :
    IsSound digest is_valid (run digest (validates is_valid) same_text requests store)
run-IsSound_example =
    run-IsSound digest is_valid same_text requests store (refl, (refl, (refl, tt)))
      (refl, refl, ((refl, tt), tt))

abbrev other_clip : MaterialSource
other_clip = record clip { id = "clip2"; variant_ids = [] }

abbrev with_clip : Domain
with_clip = record used {
  characters = record hero { source_ids = "clip" ∷ "clip2" ∷ [] } ∷ [];
  sources = clip ∷ other_clip ∷ [];
}

creates_clip : create_source other_clip used ≡ ok with_clip
unfolding program
creates_clip = refl

delete_source-create_source_example : delete_source "clip2" true true with_clip ≡ ok used
delete_source-create_source_example =
    delete_source-create_source other_clip used with_clip (refl, refl, refl) creates_clip

abbrev idle : Domain
idle = record used {
  characters = record hero { action_ids = []; default_action_id = none } ∷ [];
  actions = [];
}

abbrev with_run : Domain
with_run = record idle {
  characters =
      record hero {
        action_ids = "run" ∷ [];
        default_action_id = some "run";
        action_settings = ("run", setting) ∷ [];
      }
      ∷ [];
  actions =
      record {
        id = "run";
        character_id = "hero";
        name = "Run";
        preview_loop = true;
        loop = true;
        frame_refs = [];
      }
      ∷ [];
}

creates_run : create_action same_text setting "run" "hero" "Run" idle ≡ ok with_run
unfolding program
creates_run = refl

delete_action-create_action_example : delete_action "run" with_run ≡ ok idle
delete_action-create_action_example =
    delete_action-create_action same_text setting "run" "hero" "Run" idle with_run
      (refl, ((refl, refl, (λ e. refl), λ k e. cc), tt)) creates_run
