-- ===== src/Client/Workspace/Saved.antt =====
-- What the requests leave of the saved document.
use rotoweave.Base.{
  String, Bool, true, false, ◌≡◌, refl, Option, some, List, [], ◌∷◌, inl, inr, ◌⊎◌, Bool-cases,
  str_eq, str_eq_refl, ap, ◌∙◌, All,
}
use rotoweave.Client.Workspace.Schema.{
  Domain, revision_conflict, invalid_domain, read_only, workspace_changed, Result, ok, failed_by,
  require,
}
use rotoweave.Client.Workspace.Migration.Frames.{ok-and_then, ok-require}
use rotoweave.Client.Workspace.Commit.{
  Store, Disk, semantic_hash, has_revision, finalized, finalize, write_aggregate, mutate_domain,
  apply_edit, Request, or_kept, run, validates, settings_listed,
}
use rotoweave.Client.Workspace.Listed.{
  ListsDefault, AllListDefault, IsListed, AllListed, settings_listed-IsListed,
}
use rotoweave.Client.Workspace.Lists.{All-imp}
use rotoweave.Client.Workspace.Listed.Edits.{keeps_default, apply_edit-AllListDefault}

module _ (digest : Domain → String) (is_valid : Domain → Bool) where
  -- What a request that succeeds did: the document is the old one, or the changed one under its new revision.
  abbrev pub Written : Store → String → Domain → Store → Type 0
  Written s revision d s1 =
      (s1 ≡ s)
      ⊎ ((is_valid (record d { revision_id = revision }) ≡ true)
          × (s1 ≡ finalized digest revision d s))

  finalize-Written :
      (s s1 : Store) (revision : String) (d : Domain)
      → finalize digest is_valid revision s d ≡ ok s1
      → Written s revision d s1
  finalize-Written s s1 revision d e =
      elim (Bool-cases (str_eq s.content_hash (semantic_hash digest d))) [
        | inl q ↦ let r : ok s ≡ ok s1 = rw q at e in inl cc
        | inr q ↦
            let r : require (is_valid (record d { revision_id = revision })) invalid_domain
                  (ok (finalized digest revision d s))
                ≡ ok s1 =
              rw q at e in
            let (a, b) =
              ok-require (is_valid (record d { revision_id = revision })) invalid_domain _ s1 r in
            inr (a, cc)
      ]

  mutate-Written :
      (disk : Disk) (expected : Option String) (revision : String) (f : Domain → Result Domain)
      (s s1 : Store)
      → mutate_domain digest is_valid disk expected revision f s ≡ ok s1
      → (is_valid s.domain ≡ true)
        × (has_revision expected s.domain ≡ true)
        × (d : Domain) × (f s.domain ≡ ok d)
        × Written s revision d s1
  unfolding mutate_domain
  mutate-Written disk expected revision f s s1 e =
      let (a, e1) = ok-require disk.same_document workspace_changed _ s1 e in
      let (b, e2) = ok-require (is_valid s.domain) invalid_domain _ s1 e1 in
      let (c, e3) = ok-require (has_revision expected s.domain) revision_conflict _ s1 e2 in
      let (d, changed, e4) =
        ok-and_then (f s.domain) (write_aggregate digest is_valid disk revision s) s1 e3 in
      let (g, e5) = ok-require s.writable read_only _ s1 e4 in
      let (h, e6) = ok-require disk.same_assets workspace_changed _ s1 e5 in
      let (i, e7) = ok-require disk.same_document workspace_changed _ s1 e6 in
      (b, c, d, changed, finalize-Written s s1 revision d e7)

  is_valid-mutate :
      (disk : Disk) (expected : Option String) (revision : String) (f : Domain → Result Domain)
      (s s1 : Store)
      → mutate_domain digest is_valid disk expected revision f s ≡ ok s1
      → is_valid s1.domain ≡ true
  is_valid-mutate disk expected revision f s s1 e =
      let (b, c, d, changed, w) = mutate-Written disk expected revision f s s1 e in
      elim w [ inl q ↦ rw q b | inr q ↦ rw q.1 q.0 ]

  first_saved :
      (s s1 : Store) (revision : String) (d : Domain)
      → Written s revision d s1
      → str_eq s.content_hash s1.content_hash ≡ false
      → s1.domain.revision_id ≡ revision
  first_saved s s1 revision d (inl q) changed =
      let r : true ≡ false = rw (q, str_eq_refl s.content_hash) at changed in cc
  first_saved s s1 revision d (inr q) changed = rw q.1

  -- Of two changes whose callers read the same revision, the second is refused as a conflict once the
  -- first has changed the saved content, whatever the changes are, where the identifier that the first
  -- gets for its revision is not the one read; the document file being the one last saved.
  pub mutate-mutate :
      (disk later : Disk) (read first second : String) (f g : Domain → Result Domain) (s s1 : Store)
      → str_eq first read ≡ false
      → mutate_domain digest is_valid disk (some read) first f s ≡ ok s1
      → str_eq s.content_hash s1.content_hash ≡ false
      → later.same_document ≡ true
      → mutate_domain digest is_valid later (some read) second g s1 ≡ failed_by revision_conflict
  unfolding mutate_domain
  mutate-mutate disk later read first second f g s s1 fresh e changed same =
      let (b, c, d, made, w) = mutate-Written disk (some read) first f s s1 e in
      let stale : str_eq s1.domain.revision_id read ≡ false =
        ap (λ i. str_eq i read) (first_saved s s1 first d w changed) ∙ fresh in
      rw (same, is_valid-mutate disk (some read) first f s s1 e, stale)

-- The request sets no default action by hand.
abbrev pub KeepsDefault : Request → Type 0
KeepsDefault r = keeps_default r.edit ≡ true

module _ (digest : Domain → String) (rest : Domain → Bool) where
  -- The saved document passes the validator, its stored hash is its own, and each character lists its
  -- default action and the actions that it has settings of.
  abbrev pub IsSound : Store → Type 0
  IsSound s =
      (validates rest s.domain ≡ true)
      × (s.content_hash ≡ semantic_hash digest s.domain)
      × AllListed s.domain

  valid-AllListed : (d : Domain) → validates rest d ≡ true → AllListDefault d → AllListed d
  valid-AllListed d v h = elim (Bool-cases (settings_listed d.characters)) [
    | inl e ↦ settings_listed-IsListed d.characters h e
    | inr e ↦ let r : false ≡ true = rw e at v in cc
  ]

  mutate-IsSound :
      (strip : String → String) (r : Request) (s s1 : Store)
      → KeepsDefault r
      → IsSound s
      → mutate_domain digest
          (validates rest)
          r.disk
          r.expected
          r.revision
          (apply_edit strip r.edit)
          s
        ≡ ok s1
      → IsSound s1
  mutate-IsSound strip r s s1 k h e =
      let (b, c, d, changed, w) =
        mutate-Written digest (validates rest) r.disk r.expected r.revision
          (apply_edit strip r.edit) s s1 e in
      let defaults : AllListDefault s.domain =
        All-imp IsListed ListsDefault (λ x q. q.0) s.domain.characters h.2 in
      elim w [
        | inl q ↦ rw q h
        | inr q ↦ rw q.1 (
          q.0,
          refl,
          valid-AllListed (record d { revision_id = r.revision }) q.0
              (apply_edit-AllListDefault strip r.edit s.domain d k defaults changed),
        )
      ]

  or_kept-IsSound :
      (s : Store) (o : Result Store)
      → IsSound s
      → ((s1 : Store) → o ≡ ok s1 → IsSound s1)
      → IsSound (or_kept s o)
  or_kept-IsSound s (ok s1) h k = k s1 refl
  or_kept-IsSound s (failed_by x) h k = h

  -- After any requests that set no default action by hand, with whatever the disk holds and whichever of
  -- them fail, the saved document passes the validator, its stored hash is that of its content, and each
  -- character lists its default action and the actions that it has settings of, where this held before.
  pub run-IsSound :
      (strip : String → String) (rs : List Request) (s : Store)
      → All KeepsDefault rs
      → IsSound s
      → IsSound (run digest (validates rest) strip rs s)
  unfolding run
  run-IsSound strip [] s k h = h
  run-IsSound strip (r ∷ rs) s k h = run-IsSound strip rs _ k.1 (
      or_kept-IsSound s
        (mutate_domain digest (validates rest) r.disk r.expected r.revision
          (apply_edit strip r.edit) s)
        h (λ s1 e. mutate-IsSound strip r s s1 k.0 h e))
