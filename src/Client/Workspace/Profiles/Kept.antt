-- ===== src/Client/Workspace/Profiles/Kept.antt =====
-- Size profiles keep different names, and sizes and units within their bounds.
use rotoweave.Base.{
  ℕ, String, Bool, true, false, ◌≡◌, refl, sym, subst, not, ◌&&◌, Option, none, some, List, [], ◌∷◌,
  str_eq, ◌==◌, length, inl, inr, Bool-cases, any_where, find_where, delete_where, or_else, All,
  arith,
}
use rotoweave.Client.Workspace.Schema.{update_first}
use rotoweave.Client.Workspace.Lists.{All-append, All-select_where, All-update_first}
use rotoweave.Server.Queue.Invariant.{Distinct}
use rotoweave.Server.Queue.Invariant.Keys.{Distinct-insert, Distinct-delete}
use rotoweave.Client.Workspace.Profiles.{
  SizeProfile, Refusal, empty_name, bad_size, bad_unit, taken_name, repeated_id, Edited, saved,
  refused, absent, is_size, is_unit, has_id, has_name, ids_repeat, check, create_size_profile,
  Changes, rename, resized, is_taken, check_name, is_size_given, is_unit_given, update_found,
  update_size_profile, delete_size_profile, ProfileEdit, creates, updates, deletes, edit, kept_or,
  edits,
}
use rotoweave.Client.Workspace.Profiles.Names.{names, names-same, Distinct-renamed}

-- A profile has a name, a width and a height between 0 and 1000 units, and a known unit.
abbrev pub IsProfile : SizeProfile → Type 0
IsProfile p =
    (str_eq p.normalized_name "" ≡ false)
    × (is_size p.width ≡ true)
    × (is_size p.height ≡ true)
    × (is_unit p.unit_mode ≡ true)

abbrev pub AreProfiles : List SizeProfile → Type 0
AreProfiles ps = All IsProfile ps × Distinct (names ps)

saved-check :
    (b : Bool) (r : Refusal) (e : Edited) (qs : List SizeProfile)
    → check b r e ≡ saved qs
    → (b ≡ true) × (e ≡ saved qs)
saved-check true r e qs h = (refl, h)
saved-check false r e qs h = cc

transfer : {xs ys : List SizeProfile} → AreProfiles xs → saved xs ≡ saved ys → AreProfiles ys
transfer {xs} {ys} h e = let same : xs ≡ ys = cc in subst AreProfiles same h

is_false : (b : Bool) → not b ≡ true → b ≡ false
is_false true e = cc
is_false false e = refl

both : (a b : Bool) → (a && b) ≡ true → (a ≡ true) × (b ≡ true)
both a b e = (ground (arith, e), ground (arith, e))

create-AreProfiles :
    (strip normalize : String → String) (p : SizeProfile) (ps qs : List SizeProfile)
    → AreProfiles ps
    → create_size_profile strip normalize p ps ≡ saved qs
    → AreProfiles qs
unfolding create_size_profile
create-AreProfiles strip normalize p ps qs h e =
    let n = normalize p.name in
    let q = record p { name = strip p.name; normalized_name = n } in
    let (a, e1) = saved-check (not (str_eq n "")) empty_name _ qs e in
    let (b, e2) = saved-check (is_size p.width && is_size p.height) bad_size _ qs e1 in
    let (c, e3) = saved-check (is_unit p.unit_mode) bad_unit _ qs e2 in
    let (d, e4) = saved-check (not (ids_repeat ps)) repeated_id _ qs e3 in
    let (f, e5) = saved-check (not (any_where (has_name n) ps)) taken_name _ qs e4 in
    let (w, v) = both (is_size p.width) (is_size p.height) b in
    transfer
      (
        All-append IsProfile ps (q ∷ []) h.0 ((is_false (str_eq n "") a, w, v, c), tt),
        Distinct-insert (λ (p : SizeProfile). p.normalized_name) ps q
            (is_false (any_where (has_name n) ps) f) h.1,
      )
      e5

delete-AreProfiles :
    (i : String) (ps qs : List SizeProfile)
    → AreProfiles ps
    → delete_size_profile i ps ≡ saved qs
    → AreProfiles qs
unfolding delete_size_profile
delete-AreProfiles i ps qs h e =
    let rest = delete_where (has_id i) ps in
    let (a, e1) = saved-check (not (ids_repeat ps)) repeated_id _ qs e in
    elim (Bool-cases (length rest == length ps)) [
      | inl t ↦ let r : absent ≡ saved qs = rw t at e1 in cc
      | inr t ↦
          let r : saved rest ≡ saved qs = rw t at e1 in
          transfer
            (
              All-select_where IsProfile (λ p. not (has_id i p)) ps h.0,
              Distinct-delete (λ (p : SizeProfile). p.normalized_name) (has_id i) ps h.1,
            )
            r
    ]

or_given :
    (o : Option ℕ) (w : ℕ)
    → is_size_given o ≡ true
    → is_size w ≡ true
    → is_size (or_else o w) ≡ true
or_given none w a b = b
or_given (some x) w a b = a

or_given_unit :
    (o : Option String) (m : String)
    → is_unit_given o ≡ true
    → is_unit m ≡ true
    → is_unit (or_else o m) ≡ true
or_given_unit none m a b = b
or_given_unit (some x) m a b = a

module _ (strip normalize : String → String) (i : String) (c : Changes) (ps : List SizeProfile)
    (h : AreProfiles ps) (apart : ids_repeat ps ≡ false) where
  -- What is left of an update once its name has been checked.
  abbrev sized : (SizeProfile → SizeProfile) → Edited
  sized f =
      check (is_size_given c.width && is_size_given c.height) bad_size
        (check (is_unit_given c.unit_mode) bad_unit (saved (update_first (has_id i) f ps)))

  sized-AreProfiles :
      (g : SizeProfile → SizeProfile) (qs : List SizeProfile)
      → ((p : SizeProfile) → IsProfile p → IsProfile (g p))
      → Distinct (names (update_first (has_id i) (λ p. resized c (g p)) ps))
      → sized (λ p. resized c (g p)) ≡ saved qs
      → AreProfiles qs
  sized-AreProfiles g qs k d e =
      let (a, e1) = saved-check (is_size_given c.width && is_size_given c.height) bad_size _ qs e in
      let (b, e2) = saved-check (is_unit_given c.unit_mode) bad_unit _ qs e1 in
      let (w, v) = both (is_size_given c.width) (is_size_given c.height) a in
      transfer
        (
          All-update_first IsProfile (has_id i) (λ p. resized c (g p))
              (λ p q.
                (let r = k p q in
                  (
                    r.0,
                    or_given c.width (g p).width w r.1,
                    or_given c.height (g p).height v r.2,
                    or_given_unit c.unit_mode (g p).unit_mode b r.3,
                  )))
              ps h.0,
          d,
        )
        e2

  named-AreProfiles :
      (o : Option String) (qs : List SizeProfile)
      → check_name strip normalize o i ps (sized (λ p. resized c (rename strip normalize o p)))
        ≡ saved qs
      → AreProfiles qs
  named-AreProfiles none qs e =
      sized-AreProfiles (λ p. p) qs (λ p q. q)
        (subst Distinct (sym (names-same i (resized c) (λ p. refl) ps)) h.1) e
  named-AreProfiles (some n) qs e =
      let m = normalize (strip n) in
      let (a, e1) = saved-check (not (str_eq m "")) empty_name _ qs e in
      let (b, e2) = saved-check (not (is_taken i m ps)) taken_name _ qs e1 in
      sized-AreProfiles (rename strip normalize (some n)) qs
        (λ p q. (is_false (str_eq m "") a, q.1, q.2, q.3))
        (Distinct-renamed i (λ p. resized c (rename strip normalize (some n) p)) m (λ p. refl) ps
          apart (is_false (is_taken i m ps) b) h.1)
        e2

  found-AreProfiles :
      (o : Option SizeProfile) (qs : List SizeProfile)
      → update_found strip normalize i c ps o ≡ saved qs
      → AreProfiles qs
  found-AreProfiles none qs e = cc
  found-AreProfiles (some p) qs e = named-AreProfiles c.name qs e

edit-AreProfiles :
    (strip normalize : String → String) (x : ProfileEdit) (ps qs : List SizeProfile)
    → AreProfiles ps
    → edit strip normalize x ps ≡ saved qs
    → AreProfiles qs
unfolding edit update_size_profile
edit-AreProfiles strip normalize (creates p) ps qs h e =
    create-AreProfiles strip normalize p ps qs h e
edit-AreProfiles strip normalize (updates i c) ps qs h e =
    let (a, e1) = saved-check (not (ids_repeat ps)) repeated_id _ qs e in
    found-AreProfiles strip normalize i c ps h (is_false (ids_repeat ps) a)
      (find_where (has_id i) ps) qs e1
edit-AreProfiles strip normalize (deletes i) ps qs h e = delete-AreProfiles i ps qs h e

kept_or-AreProfiles :
    (ps : List SizeProfile) (e : Edited)
    → AreProfiles ps
    → ((qs : List SizeProfile) → e ≡ saved qs → AreProfiles qs)
    → AreProfiles (kept_or ps e)
kept_or-AreProfiles ps (saved qs) h k = k qs refl
kept_or-AreProfiles ps (refused r) h k = h
kept_or-AreProfiles ps absent h k = h

-- After any creations, changes and deletions of size profiles, whichever of them are refused, no two
-- profiles have the same normalised name, and each has a name, a width and a height above 0 and up to
-- 1000 units, and a known unit, where this held before.
pub edits-AreProfiles :
    (strip normalize : String → String) (es : List ProfileEdit) (ps : List SizeProfile)
    → AreProfiles ps
    → AreProfiles (edits strip normalize es ps)
unfolding edits
edits-AreProfiles strip normalize [] ps h = h
edits-AreProfiles strip normalize (e ∷ es) ps h =
    edits-AreProfiles strip normalize es (kept_or ps (edit strip normalize e ps)) (
      kept_or-AreProfiles ps (edit strip normalize e ps) h
        (λ qs q. edit-AreProfiles strip normalize e ps qs h q))
