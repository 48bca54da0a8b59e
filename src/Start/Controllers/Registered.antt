-- ===== src/Start/Controllers/Registered.antt =====
-- The controllers that a manager runs once they were set up.
use provider_osb.Base.{
  Option-cases, false, ◌≡◌, ◌≢◌, ◌⊎◌, ◌∙◌, inl, inr, refl, none, some, List, [], ◌∷◌, arith,
}
use provider_osb.Errors.{Error, wrap_at, of_binding_controller, BindingControllerError}
use provider_osb.Apis.{SchemeLibrary, service_binding_kind}
use provider_osb.Platform.{Platform}
use provider_osb.Exec.{Session, Result, ok, err, panic, ◌>>=◌, ◌>>◌}
use provider_osb.Start.{FlagSet}
use provider_osb.Start.Runtime.{
  Recorders, Options, ControllerSpec, StateRecorder, Runtime, on_manager,
}
use provider_osb.Start.Controllers.{
  rename, state_recorder, setup_config, setup_bindings, setup_instances, config_controller,
  binding_controller, instance_controller, Setup,
}

abbrev pub Has : {A : Type 0} → A → List A → Type 0
Has a [] = ⊥
Has a (x ∷ xs) = (a ≡ x) ⊎ Has a xs

-- The documentation of the manager: a controller that was completed runs in it, and neither that nor a
-- state recorder changes the other controllers, the identity or the scheme.
pub record IsRuntime {L : SchemeLibrary} {R : Recorders} (rt : Runtime L R) : Type 0 where
  pub running : rt.Manager → List (ControllerSpec R)
  pub completed :
      (c : ControllerSpec R) (m : rt.Manager)
      → (rt.complete c m).0 ≡ none
      → running (rt.complete c m).1 ≡ c ∷ running m
  pub refused :
      (c : ControllerSpec R) (m : rt.Manager) (e : Error)
      → (rt.complete c m).0 ≡ some e
      → running (rt.complete c m).1 ≡ running m
  pub complete_identity :
      (c : ControllerSpec R) (m : rt.Manager)
      → rt.impersonate (rt.complete c m).1 ≡ rt.impersonate m
  pub complete_scheme :
      (c : ControllerSpec R) (m : rt.Manager) → rt.get_scheme (rt.complete c m).1 ≡ rt.get_scheme m
  pub recorded :
      (r : StateRecorder R) (m : rt.Manager) → running (rt.add_recorder r m).1 ≡ running m
  pub recorder_identity :
      (r : StateRecorder R) (m : rt.Manager)
      → rt.impersonate (rt.add_recorder r m).1 ≡ rt.impersonate m
  pub recorder_scheme :
      (r : StateRecorder R) (m : rt.Manager)
      → rt.get_scheme (rt.add_recorder r m).1 ≡ rt.get_scheme m

module _ {L : SchemeLibrary} {R : Recorders} (rt : Runtime L R) (laws : IsRuntime rt) where
  -- The manager `n` is `m` with perhaps more controllers.
  pub record Extends (m n : rt.Manager) : Type 0 where
    pub grown : (c : ControllerSpec R) → Has c (laws.running m) → Has c (laws.running n)
    pub identity : rt.impersonate n ≡ rt.impersonate m
    pub scheme : rt.get_scheme n ≡ rt.get_scheme m

  pub Extends-refl : (m : rt.Manager) → Extends m m
  Extends-refl m = record { grown = λ c h. h; identity = refl; scheme = refl }

  pub Extends-trans : (m n p : rt.Manager) → Extends m n → Extends n p → Extends m p
  Extends-trans m n p a b = record {
    grown = λ c h. b.grown c (a.grown c h);
    identity = b.identity ∙ a.identity;
    scheme = b.scheme ∙ a.scheme;
  }

  complete-Extends : (c : ControllerSpec R) (m : rt.Manager) → Extends m (rt.complete c m).1
  complete-Extends c m = record {
    grown = λ d h. elim (Option-cases (rt.complete c m).0) [
      | inl added ↦ rw (laws.completed c m added) (inr h)
      | inr (e, failed) ↦ rw (laws.refused c m e failed) h
    ];
    identity = laws.complete_identity c m;
    scheme = laws.complete_scheme c m;
  }

  add_recorder-Extends : (r : StateRecorder R) (m : rt.Manager) → Extends m (rt.add_recorder r m).1
  add_recorder-Extends r m = record {
    grown = λ d h. rw (laws.recorded r m) h;
    identity = laws.recorder_identity r m;
    scheme = laws.recorder_scheme r m;
  }

module _ {L : SchemeLibrary} {R : Recorders} (P : Platform) (F : FlagSet) (rt : Runtime L R)
    (laws : IsRuntime rt) (o : Options F R) where
  abbrev Step : Type 0
  Step = Session rt.Manager → Result (Unit {0}) × Session rt.Manager

  -- A setup that keeps what the manager has, whether it succeeds or not.
  abbrev pub Grows : Setup P F rt → Type 0
  Grows f = (s : Session rt.Manager) → Extends rt laws s.obj (f s).1.obj

  -- The controller runs after the setup has succeeded.
  abbrev pub Registers : Setup P F rt → (rt.Manager → ControllerSpec R) → Type 0
  Registers f c =
      (s : Session rt.Manager) → (f s).0 ≡ ok tt → Has (c s.obj) (laws.running (f s).1.obj)

  pub setup_config-Grows : Grows (setup_config P F rt o)
  unfolding setup_config on_manager
  setup_config-Grows s = complete-Extends rt laws _ s.obj

  complete-Registers :
      (c : ControllerSpec R) (s : Session rt.Manager)
      → (on_manager (rt.complete c) s).0 ≡ ok tt
      → Has c (laws.running (on_manager (rt.complete c) s).1.obj)
  unfolding on_manager
  complete-Registers c s h = elim (Option-cases (rt.complete c s.obj).0) [
    | inl added ↦ rw (laws.completed c s.obj added) (inl refl)
    | inr (e, failed) ↦ let wrong = rw failed at h in absurd (ground arith)
  ]

  pub setup_config-Registers : Registers (setup_config P F rt o) (λ m. config_controller P F rt o)
  unfolding setup_config
  setup_config-Registers s h = complete-Registers _ s h

  pub setup_instances-Grows : Grows (setup_instances P F rt o)
  unfolding ◌>>=◌ setup_instances on_manager
  setup_instances-Grows s = complete-Extends rt laws _ s.obj

  pub setup_instances-Registers :
      Registers (setup_instances P F rt o) (instance_controller P F rt o)
  unfolding ◌>>=◌ setup_instances
  setup_instances-Registers s h = complete-Registers _ s h

  module _ (quiet : F.enabled o.features rt.enable_alpha_change_logs ≡ false) where
    -- The setup stops at the state recorder, or it goes on to complete the controller.
    setup_bindings-cases :
        (s : Session rt.Manager)
        → let whole = setup_bindings P F rt o s in
          (t : Session rt.Manager) × Extends rt laws s.obj t.obj
          × ((((e : Error) × (whole.0 ≡ err e)) × (whole.1 ≡ t))
              ⊎ (whole ≡ on_manager (rt.complete (binding_controller P F rt o s.obj none)) t))
    unfolding ◌>>=◌ setup_bindings rename on_manager
    setup_bindings-cases s = elim (Option-cases o.metric_options) [
      | inl unmeasured ↦ (s, Extends-refl rt laws s.obj, inr (rw (quiet, unmeasured, ◌>>◌) refl))
      | inr (m, measured) ↦ elim (Option-cases m.mr_state_metrics) [
        | inl stateless ↦
            (s, Extends-refl rt laws s.obj, inr (rw (quiet, measured, stateless, ◌>>◌) refl))
        | inr (metrics, given) ↦
            let r = state_recorder P F rt m metrics in
            let t : Session rt.Manager = record s { obj = (rt.add_recorder r s.obj).1 } in
            let grown = add_recorder-Extends rt laws r s.obj in
            elim (Option-cases (rt.add_recorder r s.obj).0) [
              | inl added ↦ (t, grown, inr (rw (quiet, measured, given, added, ◌>>◌) refl))
              | inr (e, failed) ↦ (
                t,
                grown,
                inl (
                  (
                    wrap_at
                        (of_binding_controller
                          BindingControllerError.cannot_register_mr_state_recorder)
                        service_binding_kind.kind e,
                    rw (quiet, measured, given, failed, ◌>>◌) refl,
                  ),
                  rw (quiet, measured, given, failed, ◌>>◌) refl,
                ),
              )
            ]
      ]
    ]

    pub setup_bindings-Grows : Grows (setup_bindings P F rt o)
    unfolding on_manager
    setup_bindings-Grows s =
        let (t, grown, went) = setup_bindings-cases s in
        elim went [
          | inl (failed, after) ↦ rw after grown
          | inr goes_on ↦
              rw goes_on (Extends-trans rt laws _ _ _ grown (complete-Extends rt laws _ t.obj))
        ]

    pub setup_bindings-Registers :
        Registers (setup_bindings P F rt o) (λ m. binding_controller P F rt o m none)
    setup_bindings-Registers s h =
        let (t, grown, went) = setup_bindings-cases s in
        elim went [
          | inl ((e, failed), after) ↦ absurd (ground (arith, failed, h))
          | inr goes_on ↦ rw goes_on (complete-Registers _ t (rw goes_on at h))
        ]

    pub setup_bindings-ne-panic : (s : Session rt.Manager) → (setup_bindings P F rt o s).0 ≢ panic
    unfolding on_manager
    setup_bindings-ne-panic s =
        let (t, grown, went) = setup_bindings-cases s in
        elim went [
          | inl ((e, failed), after) ↦ ground (arith, failed)
          | inr goes_on ↦ rw goes_on (ground arith)
        ]
