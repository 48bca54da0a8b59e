-- ===== src/Apis/Kinds.antt =====
-- What a scheme knows after apis/osb.go has added to it.
use provider_osb.Base.{
  Option-cases, String, true, ◌≡◌, inl, inr, Option, none, some, List, [], ◌∷◌, arith,
}
use provider_osb.Errors.{Error}
use provider_osb.Apis.{
  GroupVersion, GroupVersionKind, SchemeLibrary, add_to_scheme, binding_group_version,
  instance_group_version, config_group_version, binding_objects, instance_objects, config_objects,
  usage_objects, store_objects,
}

module _ (L : SchemeLibrary) where
  -- The scheme recognises each of these objects in the group.
  abbrev pub KnowsAll : L.Scheme → GroupVersion → List String → Type 0
  KnowsAll s g [] = Unit
  KnowsAll s g (k ∷ ks) =
      (L.recognizes s (record { group_version = g; kind = k }) ≡ true) × KnowsAll s g ks

  abbrev pub KnowsLists : L.Scheme → GroupVersion → List (List String) → Type 0
  KnowsLists s g [] = Unit
  KnowsLists s g (ks ∷ rest) = KnowsAll s g ks × KnowsLists s g rest

  abbrev Builder : Type 0
  Builder = L.Scheme → Option Error × L.Scheme

  -- The documentation of the scheme: builders run in order until one fails, and a builder that does
  -- not fail adds its objects and removes none.
  pub record IsSchemeLibrary : Type 0 where
    pub run-nil : (s : L.Scheme) → L.run_builders [] s ≡ (none, s)
    pub run-done :
        (f : Builder) (fs : List Builder) (s : L.Scheme)
        → (f s).0 ≡ none
        → L.run_builders (f ∷ fs) s ≡ L.run_builders fs (f s).1
    pub run-failed :
        (f : Builder) (fs : List Builder) (s : L.Scheme) (e : Error)
        → (f s).0 ≡ some e
        → L.run_builders (f ∷ fs) s ≡ (some e, (f s).1)
    pub added :
        (g : GroupVersion) (os : List (List String)) (s : L.Scheme)
        → (L.add_objects g os s).0 ≡ none
        → KnowsLists (L.add_objects g os s).1 g os
    pub kept :
        (g : GroupVersion) (os : List (List String)) (s : L.Scheme) (k : GroupVersionKind)
        → L.recognizes s k ≡ true
        → L.recognizes (L.add_objects g os s).1 k ≡ true

  -- All the objects of the three packages.
  pub record KnowsApis (s : L.Scheme) : Type 0 where
    pub configs :
        KnowsLists s config_group_version (config_objects ∷ usage_objects ∷ store_objects ∷ [])
    pub instances : KnowsLists s instance_group_version (instance_objects ∷ [])
    pub bindings : KnowsLists s binding_group_version (binding_objects ∷ [])

  module _ (laws : IsSchemeLibrary) where
    KnowsAll-kept :
        (g h : GroupVersion) (os : List (List String)) (ks : List String) (s : L.Scheme)
        → KnowsAll s h ks
        → KnowsAll (L.add_objects g os s).1 h ks
    KnowsAll-kept g h os [] s known = tt
    KnowsAll-kept g h os (k ∷ ks) s known =
        (laws.kept g os s _ known.0, KnowsAll-kept g h os ks s known.1)

    KnowsLists-kept :
        (g h : GroupVersion) (os rest : List (List String)) (s : L.Scheme)
        → KnowsLists s h rest
        → KnowsLists (L.add_objects g os s).1 h rest
    KnowsLists-kept g h os [] s known = tt
    KnowsLists-kept g h os (ks ∷ rest) s known =
        (KnowsAll-kept g h os ks s known.0, KnowsLists-kept g h os rest s known.1)

    -- Builders that do not fail have run, the first one too.
    run-first :
        (f : Builder) (fs : List Builder) (s : L.Scheme)
        → (L.run_builders (f ∷ fs) s).0 ≡ none
        → ((f s).0 ≡ none) × (L.run_builders (f ∷ fs) s ≡ L.run_builders fs (f s).1)
    run-first f fs s h = elim (Option-cases (f s).0) [
      | inl ran ↦ (ran, laws.run-done f fs s ran)
      | inr (e, failed) ↦
          let stopped = laws.run-failed f fs s e failed in
          let wrong = rw stopped at h in absurd (ground arith)
    ]

    -- If builders run in order until one fails, and a builder that does not fail adds its objects and
    -- removes none, then a scheme to which all the APIs were added without an error recognises every
    -- object of the three packages, the lists included.
    pub add_to_scheme-KnowsApis :
        (s : L.Scheme) → (add_to_scheme L s).0 ≡ none → KnowsApis (add_to_scheme L s).1
    unfolding add_to_scheme
    add_to_scheme-KnowsApis s h =
        let cg = config_group_version in
        let ig = instance_group_version in
        let bg = binding_group_version in
        let cs : List (List String) = config_objects ∷ usage_objects ∷ store_objects ∷ [] in
        let is : List (List String) = instance_objects ∷ [] in
        let bs : List (List String) = binding_objects ∷ [] in
        let c = (L.add_objects cg cs s).1 in
        let i = (L.add_objects ig is c).1 in
        let (ran_c, rest_c) = run-first _ _ s h in
        let (ran_i, rest_i) = run-first _ _ c (rw rest_c at h) in
        let (ran_b, rest_b) = run-first _ _ i (rw (rest_c, rest_i) at h) in
        let in_c = KnowsLists-kept ig cg is cs c (laws.added cg cs s ran_c) in
        let in_i = laws.added ig is c ran_i in
        rw (rest_c, rest_i, rest_b, laws.run-nil)
          (record {
            configs = KnowsLists-kept bg cg bs cs i in_c;
            instances = KnowsLists-kept bg ig bs is i in_i;
            bindings = laws.added bg bs i ran_b;
          })
