-- ===== src/Client/Workspace/Listed.antt =====
-- A character lists its default action, and the actions that it has settings of.
pub mod Edits
use rotoweave.Base.{
  String, Bool, true, false, ◌≡◌, refl, Option, none, some, List, [], ◌∷◌, ◌++◌, inl, inr,
  Bool-cases, str_eq, str_eq_refl, if◌then◌else◌, or_else, delete_where, All, any_where, not,
}
use rotoweave.Client.Workspace.Schema.{ActionSetting, Character, Domain, among}
use rotoweave.Client.Workspace.Mutations.{add_action_to}
use rotoweave.Client.Workspace.Mutations.Deletions.{without_action, first_of}
use rotoweave.Client.Workspace.Lists.{among-append, among-last, among-delete_where}
use rotoweave.Client.Workspace.Commit.{settings_listed}

abbrev pub lists_default : Option String → List String → Bool
lists_default none ids = true
lists_default (some i) ids = among i ids

abbrev pub ListsDefault : Character → Type 0
ListsDefault c = lists_default c.default_action_id c.action_ids ≡ true

abbrev pub AllListDefault : Domain → Type 0
AllListDefault d = All ListsDefault d.characters

abbrev pub IsListed : Character → Type 0
IsListed c =
    ListsDefault c
    × All (λ (e : String × ActionSetting). among e.0 c.action_ids ≡ true) c.action_settings

abbrev pub AllListed : Domain → Type 0
AllListed d = All IsListed d.characters

default-append :
    (o : Option String) (i : String) (is : List String)
    → lists_default o is ≡ true
    → lists_default (some (or_else o i)) (is ++ (i ∷ [])) ≡ true
default-append none i is h = among-last i is
default-append (some k) i is h = among-append k i is h

pub add_action_to-ListsDefault :
    (i : String) (x : ActionSetting) (c : Character)
    → ListsDefault c
    → ListsDefault (add_action_to i x c)
add_action_to-ListsDefault i x c h = default-append c.default_action_id i c.action_ids h

first_of-listed : (is : List String) → lists_default (first_of is) is ≡ true
first_of-listed [] = refl
first_of-listed (i ∷ is) = rw (str_eq_refl i)

default-delete :
    (o : Option String) (i : String) (is : List String)
    → lists_default o is ≡ true
    → lists_default
        (if (elim o [ none ↦ false | some k ↦ str_eq k i ])
          then first_of (delete_where (λ k. str_eq k i) is)
          else o)
        (delete_where (λ k. str_eq k i) is)
      ≡ true
default-delete none i is h = refl
default-delete (some k) i is h = elim (Bool-cases (str_eq k i)) [
  | inl e ↦ rw e (first_of-listed (delete_where (λ j. str_eq j i) is))
  | inr e ↦ rw e (among-delete_where k i is e h)
]

pub without_action-ListsDefault :
    (i : String) (c : Character) → ListsDefault c → ListsDefault (without_action i c)
without_action-ListsDefault i c h = default-delete c.default_action_id i c.action_ids h

-- What the validator accepts.
settings_named :
    (is : List String) (xs : List (String × ActionSetting))
    → any_where (λ (e : String × ActionSetting). not (among e.0 is)) xs ≡ false
    → All (λ (e : String × ActionSetting). among e.0 is ≡ true) xs
settings_named is [] h = tt
settings_named is (x ∷ xs) h = elim (Bool-cases (among x.0 is)) [
  | inl e ↦
      let r : any_where (λ (k : String × ActionSetting). not (among k.0 is)) xs ≡ false =
        rw e at h in
      (e, settings_named is xs r)
  | inr e ↦ let r : true ≡ false = rw e at h in cc
]

pub settings_listed-IsListed :
    (cs : List Character) → All ListsDefault cs → settings_listed cs ≡ true → All IsListed cs
settings_listed-IsListed [] h v = tt
settings_listed-IsListed (c ∷ cs) h v =
    elim (Bool-cases (
      any_where (λ (e : String × ActionSetting). not (among e.0 c.action_ids)) c.action_settings)) [
        | inl e ↦ let r : false ≡ true = rw e at v in cc
        | inr e ↦
            let r : settings_listed cs ≡ true = rw e at v in
            (
              (h.0, settings_named c.action_ids c.action_settings e),
              settings_listed-IsListed cs h.1 r,
            )
      ]
