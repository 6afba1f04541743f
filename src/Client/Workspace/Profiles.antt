-- ===== src/Client/Workspace/Profiles.antt =====
-- The size profiles of a workspace (RotoWeaveClient/backend/app/workspace_repository.py): a list of
-- profiles with different names. A width is a whole number of millionths of a unit; `strip` and the
-- normalisation of a name are arguments. How the list is saved is in Client.Workspace.Commit.
pub mod Names
pub mod Kept
mod Tests
use rotoweave.Base.{
  ℕ, String, Bool, true, false, not, ◌&&◌, ◌||◌, Option, none, some, List, [], ◌∷◌, ◌++◌, map,
  str_eq, if◌then◌else◌, ltb, leb, ◌==◌, length, any_where, find_where, delete_where, or_else,
}
use rotoweave.Client.Workspace.Schema.{update_first}
use rotoweave.Client.Workspace.Mutations.{has_repeat}

pub record SizeProfile : Type 0 where
  pub id : String
  pub name : String
  pub normalized_name : String
  pub width : ℕ
  pub height : ℕ
  pub unit_mode : String

pub data Refusal : Type 0 where
  empty_name bad_size bad_unit taken_name repeated_id : Refusal

-- A list to save, an exception, or the answer that there is no such profile.
pub data Edited : Type 0 where
  saved : List SizeProfile → Edited
  refused : Refusal → Edited
  absent : Edited

abbrev pub is_size : ℕ → Bool
is_size w = ltb 0 w && leb w 1_000_000_000

abbrev pub is_unit : String → Bool
is_unit m = str_eq m "pixels" || str_eq m "unity"

abbrev pub has_id : String → SizeProfile → Bool
has_id i p = str_eq p.id i

abbrev pub has_name : String → SizeProfile → Bool
has_name n p = str_eq p.normalized_name n

-- `_validate_record_ids`, on each read.
abbrev pub ids_repeat : List SizeProfile → Bool
ids_repeat ps = has_repeat (map (λ (p : SizeProfile). p.id) ps)

abbrev pub check : Bool → Refusal → Edited → Edited
check true r e = e
check false r e = refused r

-- `create_size_profile` of a record with its identifier, its name as given.
unfoldable pub create_size_profile :
    (String → String) → (String → String) → SizeProfile → List SizeProfile → Edited
create_size_profile strip normalize p ps =
    let n = normalize p.name in
    check (not (str_eq n "")) empty_name (
      check (is_size p.width && is_size p.height) bad_size (
        check (is_unit p.unit_mode) bad_unit (
          check (not (ids_repeat ps)) repeated_id (
            check (not (any_where (has_name n) ps)) taken_name
              (saved (ps ++ (record p { name = strip p.name; normalized_name = n } ∷ [])))))))

pub record Changes : Type 0 where
  pub name : Option String
  pub width : Option ℕ
  pub height : Option ℕ
  pub unit_mode : Option String

abbrev pub rename :
    (String → String) → (String → String) → Option String → SizeProfile → SizeProfile
rename strip normalize none p = p
rename strip normalize (some n) p = record p {
  name = strip n;
  normalized_name = normalize (strip n);
}

abbrev pub resized : Changes → SizeProfile → SizeProfile
resized c p = record p {
  width = or_else c.width p.width;
  height = or_else c.height p.height;
  unit_mode = or_else c.unit_mode p.unit_mode;
}

abbrev pub changed : (String → String) → (String → String) → Changes → SizeProfile → SizeProfile
changed strip normalize c p = resized c (rename strip normalize c.name p)

-- Another profile has the name.
abbrev pub is_taken : String → String → List SizeProfile → Bool
is_taken i n ps = any_where (λ p. not (has_id i p) && has_name n p) ps

abbrev pub check_name :
    (String → String)
    → (String → String)
    → Option String
    → String
    → List SizeProfile
    → Edited
    → Edited
check_name strip normalize none i ps e = e
check_name strip normalize (some n) i ps e =
    check (not (str_eq (normalize (strip n)) "")) empty_name
      (check (not (is_taken i (normalize (strip n)) ps)) taken_name e)

abbrev pub is_size_given : Option ℕ → Bool
is_size_given none = true
is_size_given (some w) = is_size w

abbrev pub is_unit_given : Option String → Bool
is_unit_given none = true
is_unit_given (some m) = is_unit m

abbrev pub update_found :
    (String → String)
    → (String → String)
    → String
    → Changes
    → List SizeProfile
    → Option SizeProfile
    → Edited
update_found strip normalize i c ps none = absent
update_found strip normalize i c ps (some p) = check_name strip normalize c.name i ps (
    check (is_size_given c.width && is_size_given c.height) bad_size (
      check (is_unit_given c.unit_mode) bad_unit
        (saved (update_first (has_id i) (changed strip normalize c) ps))))

unfoldable pub update_size_profile :
    (String → String) → (String → String) → String → Changes → List SizeProfile → Edited
update_size_profile strip normalize i c ps =
    check (not (ids_repeat ps)) repeated_id
      (update_found strip normalize i c ps (find_where (has_id i) ps))

unfoldable pub delete_size_profile : String → List SizeProfile → Edited
delete_size_profile i ps =
    let rest = delete_where (has_id i) ps in
    check (not (ids_repeat ps)) repeated_id
      (if length rest == length ps then absent else saved rest)

pub data ProfileEdit : Type 0 where
  creates : SizeProfile → ProfileEdit
  updates : String → Changes → ProfileEdit
  deletes : String → ProfileEdit

unfoldable pub edit :
    (String → String) → (String → String) → ProfileEdit → List SizeProfile → Edited
unfolding create_size_profile update_size_profile delete_size_profile
edit strip normalize (creates p) ps = create_size_profile strip normalize p ps
edit strip normalize (updates i c) ps = update_size_profile strip normalize i c ps
edit strip normalize (deletes i) ps = delete_size_profile i ps

abbrev pub kept_or : List SizeProfile → Edited → List SizeProfile
kept_or ps (saved qs) = qs
kept_or ps (refused r) = ps
kept_or ps absent = ps

unfoldable pub edits :
    (String → String) → (String → String) → List ProfileEdit → List SizeProfile → List SizeProfile
unfolding edit
edits strip normalize [] ps = ps
edits strip normalize (e ∷ es) ps =
    edits strip normalize es (kept_or ps (edit strip normalize e ps))
