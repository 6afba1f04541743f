-- ===== src/Client/Workspace/Profiles/Names.antt =====
-- The names of the size profiles under a change of one profile.
use rotoweave.Base.{
  String, false, ◌≡◌, refl, List, [], ◌∷◌, map, str_eq, eq_iff, inl, inr, Bool-cases, arith,
}
use rotoweave.Client.Workspace.Schema.{update_first, among}
use rotoweave.Server.Queue.Invariant.{Distinct, elem}
use rotoweave.Client.Workspace.Profiles.{SizeProfile, has_id, ids_repeat, is_taken}

abbrev pub names : List SizeProfile → List String
names ps = map (λ (p : SizeProfile). p.normalized_name) ps

module _ (i : String) (f : SizeProfile → SizeProfile) where
  pub names-same :
      ((p : SizeProfile) → (f p).normalized_name ≡ p.normalized_name)
      → (ps : List SizeProfile) → names (update_first (has_id i) f ps) ≡ names ps
  names-same k [] = refl
  names-same k (p ∷ ps) = elim (Bool-cases (has_id i p)) [
    | inl e ↦ rw (e, k p)
    | inr e ↦ rw (e, names-same k ps)
  ]

  module _ (n : String) (named : (p : SizeProfile) → (f p).normalized_name ≡ n) where
    elem-renamed :
        (m : String) (ps : List SizeProfile)
        → str_eq n m ≡ false
        → elem m (names ps) ≡ false
        → elem m (names (update_first (has_id i) f ps)) ≡ false
    elem-renamed m [] a h = refl
    elem-renamed m (p ∷ ps) a h = elim (Bool-cases (has_id i p)) [
      | inl e ↦ rw e (rw (named p) (ground (arith, a, h)))
      | inr e ↦ rw e (ground (arith, h, elem-renamed m ps a))
    ]

    -- Where no other profile has the identifier, none has the name.
    name_free :
        (ps : List SizeProfile)
        → among i (map (λ (p : SizeProfile). p.id) ps) ≡ false
        → is_taken i n ps ≡ false
        → elem n (names ps) ≡ false
    name_free [] a h = refl
    name_free (p ∷ ps) a h = ground (arith, a, h, name_free ps)

    pub Distinct-renamed :
        (ps : List SizeProfile)
        → ids_repeat ps ≡ false
        → is_taken i n ps ≡ false
        → Distinct (names ps)
        → Distinct (names (update_first (has_id i) f ps))
    Distinct-renamed [] a h d = tt
    Distinct-renamed (p ∷ ps) a h d = elim (Bool-cases (has_id i p)) [
      | inl e ↦
          let name : p.id ≡ i = ground (arith, eq_iff p.id i) in
          let alone : among p.id (map (λ (q : SizeProfile). q.id) ps) ≡ false = ground (arith, a) in
          let first : among i (map (λ (q : SizeProfile). q.id) ps) ≡ false = rw name at alone in
          let free : is_taken i n ps ≡ false = ground (arith, h) in
          rw e (rw (named p) (name_free ps first free), d.1)
      | inr e ↦
          let rest : ids_repeat ps ≡ false = ground (arith, a) in
          let free : is_taken i n ps ≡ false = ground (arith, h) in
          let apart : str_eq n p.normalized_name ≡ false =
            ground (arith, h, e, eq_iff p.normalized_name n, eq_iff n p.normalized_name) in
          rw e (elem-renamed p.normalized_name ps apart d.0, Distinct-renamed ps rest free d.1)
    ]
