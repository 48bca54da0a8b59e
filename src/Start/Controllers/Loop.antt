-- ===== src/Start/Controllers/Loop.antt =====
-- The loop over the controllers in internal/controller/osb.go.
use provider_osb.Base.{◌≡◌, ◌≢◌, ◌↔◌, inl, inr, refl, none, List, [], ◌∷◌, arith, false}
use provider_osb.Exec.Rules.{Result-cases}
use provider_osb.Apis.{SchemeLibrary}
use provider_osb.Platform.{Platform}
use provider_osb.Exec.{Session, ok, panic, ◌>>=◌, ◌>>◌}
use provider_osb.Start.{FlagSet}
use provider_osb.Start.Runtime.{Recorders, Options, ControllerSpec, Runtime, on_manager}
use provider_osb.Start.Controllers.{
  rename, setup_all, controllers, Entry, setup_config, setup_instances, config_controller,
  binding_controller, instance_controller,
}
use provider_osb.Start.Controllers.Registered.{
  Has, IsRuntime, Extends, Extends-refl, Extends-trans, Grows, Registers, setup_config-Grows,
  setup_config-Registers, setup_bindings-Grows, setup_bindings-Registers, setup_bindings-ne-panic,
  setup_instances-Grows, setup_instances-Registers,
}

module _ {L : SchemeLibrary} {R : Recorders} (P : Platform) (F : FlagSet) (rt : Runtime L R)
    (laws : IsRuntime rt) (o : Options F R) where
  abbrev Start : Type 0
  Start = Session rt.Manager

  -- The first setup of a loop that succeeded has succeeded, and the rest follows it.
  setup_all-first :
      (e : Entry P F rt) (rest : List (Entry P F rt)) (s : Start)
      → (setup_all P F rt (e ∷ rest) s).0 ≡ ok tt
      → ((e.1 s).0 ≡ ok tt) × (setup_all P F rt (e ∷ rest) s ≡ setup_all P F rt rest (e.1 s).1)
  unfolding ◌>>=◌ setup_all rename
  setup_all-first e rest s h = elim (Result-cases (e.1 s).0) [
    | inl (_, ran) ↦ (ran, rw (ran, ◌>>◌) refl)
    | inr (inl (x, failed)) ↦ let wrong = rw (failed, ◌>>◌) at h in absurd (ground arith)
    | inr (inr crashed) ↦ let wrong = rw (crashed, ◌>>◌) at h in absurd (ground arith)
  ]

  -- Each of the entries keeps what the manager has.
  abbrev AllGrow : List (Entry P F rt) → Type 0
  AllGrow [] = Unit
  AllGrow ((name, f) ∷ rest) = Grows P F rt laws o f × AllGrow rest

  setup_all-Grows :
      (es : List (Entry P F rt)) (s : Start)
      → AllGrow es
      → (setup_all P F rt es s).0 ≡ ok tt
      → Extends rt laws s.obj (setup_all P F rt es s).1.obj
  unfolding ◌>>=◌ setup_all
  setup_all-Grows [] s grow h = Extends-refl rt laws s.obj
  setup_all-Grows (e ∷ rest) s grow h =
      let (ran, follows) = setup_all-first e rest s h in
      rw follows (
        Extends-trans rt laws s.obj (e.1 s).1.obj _ (grow.0 s)
          (setup_all-Grows rest (e.1 s).1 grow.1 (rw follows at h)))

  -- A controller that depends on the identity of the manager only.
  abbrev pub Steady : (rt.Manager → ControllerSpec R) → Type 0
  Steady c = (m n : rt.Manager) → rt.impersonate n ≡ rt.impersonate m → c n ≡ c m

  setup_all-Registers :
      (es : List (Entry P F rt)) (e : Entry P F rt) (c : rt.Manager → ControllerSpec R) (s : Start)
      → AllGrow es
      → Has e es
      → Registers P F rt laws o e.1 c
      → Steady c
      → (setup_all P F rt es s).0 ≡ ok tt
      → Has (c s.obj) (laws.running (setup_all P F rt es s).1.obj)
  setup_all-Registers [] e c s grow has registers steady h = absurd has
  setup_all-Registers (d ∷ rest) e c s grow (inl same) registers steady h =
      let (ran, follows) = setup_all-first d rest s h in
      let grown = setup_all-Grows rest (d.1 s).1 grow.1 (rw follows at h) in
      rw follows (grown.grown (c s.obj) (rw (← same) (registers s (rw same ran))))
  setup_all-Registers (d ∷ rest) e c s grow (inr later) registers steady h =
      let (ran, follows) = setup_all-first d rest s h in
      let same = steady s.obj (d.1 s).1.obj (grow.0 s).identity in
      rw (follows, ← same)
        (setup_all-Registers rest e c (d.1 s).1 grow.1 later registers steady (rw follows at h))

  AllGrow-each :
      (es : List (Entry P F rt))
      → ((e : Entry P F rt) → Has e es → Grows P F rt laws o e.1)
      → AllGrow es
  AllGrow-each [] each = tt
  AllGrow-each (e ∷ rest) each = (each e (inl refl), AllGrow-each rest (λ d has. each d (inr has)))

  -- The manager `n` runs the three controllers, made for the identity of `m`.
  pub record RunsAll (m n : rt.Manager) : Type 0 where
    pub configs : Has (config_controller P F rt o) (laws.running n)
    pub bindings : Has (binding_controller P F rt o m none) (laws.running n)
    pub instances : Has (instance_controller P F rt o m) (laws.running n)
    pub scheme : rt.get_scheme n ≡ rt.get_scheme m

  -- An order in which the loop over the map visits exactly its entries.
  abbrev pub Visits : List (Entry P F rt) → Type 0
  Visits es = (e : Entry P F rt) → Has e es ↔ Has e (controllers P F rt o)

  module _ (quiet : F.enabled o.features rt.enable_alpha_change_logs ≡ false)
      (es : List (Entry P F rt)) (visits : Visits es) where
    entry-Grows : (e : Entry P F rt) → Has e (controllers P F rt o) → Grows P F rt laws o e.1
    unfolding controllers
    entry-Grows e (inl config) = rw config (setup_config-Grows P F rt laws o)
    entry-Grows e (inr (inl bindings)) = rw bindings (setup_bindings-Grows P F rt laws o quiet)
    entry-Grows e (inr (inr (inl instances))) = rw instances (setup_instances-Grows P F rt laws o)
    entry-Grows e (inr (inr (inr none_left))) = elim none_left [ ]

    entries-AllGrow : AllGrow es
    entries-AllGrow = AllGrow-each es λ e has. entry-Grows e ((visits e).0 has)

    pub setup_all-RunsAll :
        (s : Start)
        → (setup_all P F rt es s).0 ≡ ok tt
        → RunsAll s.obj (setup_all P F rt es s).1.obj
    unfolding controllers
    setup_all-RunsAll s h = record {
      configs =
          setup_all-Registers es _ _ s entries-AllGrow ((visits _).1 (inl refl))
            (setup_config-Registers P F rt laws o) (λ m n same. refl) h;
      bindings =
          setup_all-Registers es _ _ s entries-AllGrow ((visits _).1 (inr (inl refl)))
            (setup_bindings-Registers P F rt laws o quiet) (λ m n same. rw same refl) h;
      instances =
          setup_all-Registers es _ _ s entries-AllGrow ((visits _).1 (inr (inr (inl refl))))
            (setup_instances-Registers P F rt laws o) (λ m n same. rw same refl) h;
      scheme = (setup_all-Grows es s entries-AllGrow h).scheme;
    }

    -- A setup that dereferences no nil pointer.
    abbrev Survives : Entry P F rt → Type 0
    Survives e = (s : Start) → (e.1 s).0 ≢ panic

    entry-Survives : (e : Entry P F rt) → Has e (controllers P F rt o) → Survives e
    unfolding ◌>>=◌ controllers setup_config setup_instances on_manager
    entry-Survives e (inl config) s = rw config (ground arith)
    entry-Survives e (inr (inl bindings)) s =
        rw bindings (setup_bindings-ne-panic P F rt laws o quiet s)
    entry-Survives e (inr (inr (inl instances))) s = rw instances (ground arith)
    entry-Survives e (inr (inr (inr none_left))) s = elim none_left [ ]

    loop-ne-panic :
        (rest : List (Entry P F rt)) (s : Start)
        → ((e : Entry P F rt) → Has e rest → Survives e)
        → (setup_all P F rt rest s).0 ≢ panic
    unfolding ◌>>=◌ setup_all rename
    loop-ne-panic [] s each = ground arith
    loop-ne-panic (e ∷ rest) s each = elim (Result-cases (e.1 s).0) [
      | inl (_, ran) ↦ rw (ran, ◌>>◌) (loop-ne-panic rest (e.1 s).1 (λ d has. each d (inr has)))
      | inr (inl (x, failed)) ↦ rw (failed, ◌>>◌) (ground arith)
      | inr (inr crashed) ↦ absurd (each e (inl refl) s crashed)
    ]

    pub setup_all-ne-panic : (s : Start) → (setup_all P F rt es s).0 ≢ panic
    setup_all-ne-panic s = loop-ne-panic es s λ e has. entry-Survives e ((visits e).0 has)
