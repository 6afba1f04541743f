-- ===== src/Client/Workspace/Undo/Actions.antt =====
-- The deletion of an action takes back its creation.
use rotoweave.Base.{
  String, true, false, ◌≡◌, refl, sym, ap, Option, none, some, List, [], ◌∷◌, ◌++◌, str_eq,
  str_eq_refl, if◌then◌else◌, inl, inr, Bool-cases, any_where, find_where, is_some, or_else, All,
}
use rotoweave.Client.Workspace.Schema.{
  ActionSetting, Character, Action, Domain, is_character, is_action, among, update_first,
  missing_character, ok,
}
use rotoweave.Client.Workspace.Migration.Frames.{ok-require}
use rotoweave.Client.Workspace.Mutations.{get_character, on_character, create_action, add_action_to}
use rotoweave.Client.Workspace.Mutations.Deletions.{delete_action, without_action, first_of}
use rotoweave.Client.Workspace.Lists.{delete_where-last, find-last}

-- The character has not heard of the action, and has a default where it has actions.
abbrev pub IsUnaware : String → Character → Type 0
IsUnaware i c =
    (among i c.action_ids ≡ false)
    × (any_where (λ (e : String × ActionSetting). str_eq e.0 i) c.action_settings ≡ false)
    × (c.default_action_id ≡ none → c.action_ids ≡ [])
    × ((k : String) → c.default_action_id ≡ some k → str_eq k i ≡ false)

default_restored :
    (i : String) (o : Option String) (is : List String)
    → (o ≡ none → is ≡ [])
    → ((k : String) → o ≡ some k → str_eq k i ≡ false)
    → (if str_eq (or_else o i) i then first_of is else some (or_else o i)) ≡ o
default_restored i none is h k = rw (h refl) (rw (str_eq_refl i))
default_restored i (some j) is h k = rw (k j refl)

unaware-restored :
    (i : String) (x : ActionSetting) (c : Character)
    → IsUnaware i c
    → without_action i (add_action_to i x c) ≡ c
unaware-restored i x c h =
    rw
      (
        delete_where-last (λ k. str_eq k i) c.action_ids i h.0 (str_eq_refl i),
        delete_where-last (λ (e : String × ActionSetting). str_eq e.0 i) c.action_settings (i, x)
            h.1 (str_eq_refl i),
      )
      (rw (default_restored i c.default_action_id c.action_ids h.2 h.3))

characters-restored :
    (i k : String) (x : ActionSetting) (cs : List Character)
    → All (IsUnaware i) cs
    → update_first
        (is_character k)
        (without_action i)
        (update_first (is_character k) (add_action_to i x) cs)
      ≡ cs
characters-restored i k x [] h = refl
characters-restored i k x (c ∷ cs) h = elim (Bool-cases (is_character k c)) [
  | inl e ↦ rw e (rw e (ap (λ y. y ∷ cs) (unaware-restored i x c h.0)))
  | inr e ↦ rw e (rw e (ap (λ ys. c ∷ ys) (characters-restored i k x cs h.1)))
]

still_found :
    (i k : String) (x : ActionSetting) (cs : List Character)
    → is_some (find_where (is_character k) (update_first (is_character k) (add_action_to i x) cs))
      ≡ is_some (find_where (is_character k) cs)
still_found i k x [] = refl
still_found i k x (c ∷ cs) = elim (Bool-cases (is_character k c)) [
  | inl e ↦ rw e (rw e)
  | inr e ↦ rw e (rw (e, still_found i k x cs))
]

-- No action has the identifier and no character has heard of it.
abbrev pub IsFreshAction : String → Domain → Type 0
IsFreshAction i d = (any_where (is_action i) d.actions ≡ false) × All (IsUnaware i) d.characters

action_undone :
    (i : String) (x : ActionSetting) (a : Action) (d d1 : Domain)
    → IsFreshAction i d
    → str_eq a.id i ≡ true
    → is_some (get_character a.character_id d) ≡ true
    → ok (record (on_character a.character_id (add_action_to i x) d) {
      actions = d.actions ++ (a ∷ []);
    })
      ≡ ok d1
    → delete_action i d1 ≡ ok d
unfolding delete_action
action_undone i x a d d1 h named known e =
    let same : record (on_character a.character_id (add_action_to i x) d) {
      actions = d.actions ++ (a ∷ []);
    }
        ≡ d1 =
      cc in
    rw (sym same) (
      rw (find-last (is_action i) d.actions a h.0 named) (
        rw (still_found i a.character_id x d.characters, known)
          (rw (
            delete_where-last (is_action i) d.actions a h.0 named,
            characters-restored i a.character_id x d.characters h.1,
          ))))

-- The deletion of an action that has just been created restores the document as it was, where no action
-- has its identifier, no character lists it, has settings of it or has it as its default, and each
-- character without a default action has no actions.
pub delete_action-create_action :
    (strip : String → String) (x : ActionSetting) (i character name : String) (d d1 : Domain)
    → IsFreshAction i d
    → create_action strip x i character name d ≡ ok d1
    → delete_action i d1 ≡ ok d
unfolding create_action
delete_action-create_action strip x i character name d d1 h e =
    let (a, e1) = ok-require (is_some (get_character character d)) missing_character _ d1 e in
    action_undone i x
      (record {
        id = i;
        character_id = character;
        name = strip name;
        preview_loop = true;
        loop = true;
        frame_refs = [];
      })
      d d1 h (str_eq_refl i) a e1
