-- ===== src/Controller/Binding/Naming.antt =====
-- The life of the identifier of a binding, its external name, over the methods of the controller.
use provider_osb.Base.{
  ℕ, String, Bool, true, false, ◌≡◌, ◌≢◌, ◌⊎◌, ◌∙◌, sym, inl, inr, refl, Option, none, some, List,
  [], ◌∷◌, arith, length, ap,
}
use provider_osb.Errors.{done}
use provider_osb.Exec.Rules.{Fallible-cases}
use provider_osb.Common.{Action}
use provider_osb.Common.Serial.{map_value}
use provider_osb.Osb.{BindResponse}
use provider_osb.Platform.{Platform, World, Condition}
use provider_osb.Platform.Laws.{IsLawful}
use provider_osb.Exec.{Session, ◌>>=◌}
use provider_osb.Exec.Keeps.{
  Keeps, Keeps-pure, Keeps-crash, Keeps-bind, Keeps-wrapping, Keeps-modify,
}
use provider_osb.Exec.Leads.{Leads, Leads-wrapping, Leads-keep}
use provider_osb.Util.{Credentials, get_creds_from_response}
use provider_osb.Binding.{
  ServiceBinding, ResponseData, set_conditions, set_response_data_in_status,
  create_response_data_with_binding_parameters,
}
use provider_osb.Binding.Operations.{trigger_rotation}
use provider_osb.Binding.Operations.Naming.{
  KeepsName, Named, MayName, name_of, OfName, bind-MayName, MayName-of_name, un_bind-Keeps,
}
use provider_osb.Binding.Operations.Observe.Naming.{observe_state-Keeps}
use provider_osb.Binding.Operations.Rotation.{trigger_rotation-Moved}
use provider_osb.Controller.Binding.{
  External, observation, created, after_bind, observe, create, update, delete,
}
use provider_osb.Controller.Binding.Runs.{
  Operation, observing, creating, updating, deleting, run, run_all,
}

-- One change of the identifier, to a fresh one: a creation gives it, and an update replaces it.
pub data Renames (fresh : ℕ → String) : Operation → String → String → Type 0 where
  named : (n : ℕ) → Renames fresh creating "" (fresh n)
  replaced : {old : String} → old ≢ "" → (n : ℕ) → Renames fresh updating old (fresh n)

abbrev pub MayRename : (ℕ → String) → Operation → String → String → Type 0
MayRename fresh op v t = (v ≡ t) ⊎ Renames fresh op v t

-- The identifiers that a binding has, with at most one change in each method.
pub data Lives (fresh : ℕ → String) : List Operation → String → String → Type 0 where
  stop : {v : String} → Lives fresh [] v v
  next :
      {op : Operation} {ops : List Operation} {v t u : String}
      → MayRename fresh op v t
      → Lives fresh ops t u
      → Lives fresh (op ∷ ops) v u

module _ (P : Platform) (w : World P (ServiceBinding P)) (c : External) (k : KeepsName w) where
  module _ {Q : ServiceBinding P → Type 0} (of_name : OfName P w k Q) where
    conditions-keep : (x : Condition) → (sb : ServiceBinding P) → Q sb → Q (set_conditions P x sb)
    unfolding set_conditions
    conditions-keep x sb h = of_name sb (set_conditions P x sb) refl h

    observation-Keeps : (a : Action × Credentials) → Keeps Q (observation P w c a)
    unfolding observation
    observation-Keeps (Action.need_to_create, creds) = Keeps-pure _
    observation-Keeps (Action.need_to_update, creds) = Keeps-pure _
    observation-Keeps (Action.nothing_to_do, creds) =
        Keeps-bind _ _ (Keeps-modify _ (conditions-keep _)) (λ _. Keeps-pure _)

    observe-Keeps : Keeps Q (observe P w c)
    unfolding observe
    observe-Keeps =
        Keeps-bind _ _
          (Keeps-wrapping _ _
            (observe_state-Keeps P w k of_name c.rotate_binding c.originating_identity))
          observation-Keeps

    delete-Keeps : Keeps Q (delete P w c)
    unfolding delete
    delete-Keeps = Keeps-bind _ _ (Keeps-modify _ (conditions-keep _)) λ _.
        Keeps-bind _ _ (Keeps-wrapping _ _ (un_bind-Keeps P w k of_name c.originating_identity))
          (λ a. Keeps-pure _)

    status-name :
        (d : ResponseData P) (sb t : ServiceBinding P)
        → set_response_data_in_status P d sb ≡ done t
        → name_of t ≡ name_of sb
    unfolding set_response_data_in_status
    status-name d sb t h = elim (Fallible-cases (P.marshal_value (map_value d.parameters))) [
      | inl (e, failed) ↦ absurd (ground arith)
      | inr (ps, wrote_ps) ↦ elim (Fallible-cases (P.marshal_endpoints d.endpoints)) [
        | inl (e, failed) ↦ absurd (ground arith)
        | inr (es, wrote_es) ↦ elim (Fallible-cases (P.marshal_volume_mounts d.volume_mounts)) [
          | inl (e, failed) ↦ absurd (ground arith)
          | inr (vs, wrote_vs) ↦ ground arith
        ]
      ]
    ]

    created-Keeps : (resp : BindResponse P.Endpoints P.VolumeMounts) → Keeps Q (created P w c resp)
    unfolding ◌>>=◌ created
    created-Keeps resp = record {
      at = λ s h. elim (Fallible-cases (get_creds_from_response P resp.credentials)) [
        | inl (e, failed) ↦ rw failed h
        | inr (creds, read) ↦
            elim (Fallible-cases (create_response_data_with_binding_parameters P s.obj resp)) [
              | inl (e, failed) ↦ rw (read, failed) h
              | inr (d, made) ↦ elim (Fallible-cases (set_response_data_in_status P d s.obj)) [
                | inl (e, failed) ↦ rw (read, made, failed) h
                | inr (t, set) ↦
                    rw (read, made, set) (of_name s.obj t (status-name d s.obj t set) h)
              ]
            ]
      ];
    }

    after_bind-Keeps :
        (r : Option (BindResponse P.Endpoints P.VolumeMounts) × Bool) → Keeps Q (after_bind P w c r)
    unfolding after_bind
    after_bind-Keeps (resp, true) = Keeps-pure _
    after_bind-Keeps (none, false) = Keeps-crash
    after_bind-Keeps (some resp, false) = created-Keeps resp

  module _ (lawful : IsLawful P) where
    same-name : (v : String) → OfName P w k (Named v)
    same-name v o t same h = h ∙ sym same

    creating-MayRename :
        (v : String) (sb : ServiceBinding P)
        → MayName w v sb
        → MayRename w.new_uuid creating v (name_of sb)
    creating-MayRename v sb (inl same) = inl same
    creating-MayRename v sb (inr (unnamed, (n, fresh))) = rw (unnamed, fresh) (inr (named n))

    rotation-MayRename :
        (v : String)
        → Leads
            (Named v)
            (λ o. MayRename w.new_uuid updating v (name_of o))
            (trigger_rotation P w c.originating_identity)
    rotation-MayRename v = record {
      at = λ s h. elim (trigger_rotation-Moved P w c.originating_identity s) [
        | inl (same, failed) ↦ inl (rw same h)
        | inr (r, is, moved, answered) ↦
            let given : v ≢ "" = rw h is.predecessor.1 in
            let name = lawful.get-set_external_name s.obj.meta r.binding_id in
            let fresh = ap P.get_external_name moved ∙ name ∙ is.successor in
            rw fresh (inr (replaced given (length s.calls)))
      ];
    }

    run-MayRename :
        (op : Operation) (s : Session (ServiceBinding P))
        → MayRename w.new_uuid op (name_of s.obj) (name_of (run P w c op s).obj)
    unfolding run create update
    run-MayRename observing s = inl ((observe-Keeps (same-name (name_of s.obj))).at s refl)
    run-MayRename deleting s = inl ((delete-Keeps (same-name (name_of s.obj))).at s refl)
    run-MayRename creating s = creating-MayRename (name_of s.obj) (run P w c creating s).obj (
        (Leads-keep _ _
            (Leads-wrapping _ _
              (bind-MayName P w k lawful (name_of s.obj) c.originating_identity c.disable_async))
            (after_bind-Keeps (MayName-of_name P w k lawful (name_of s.obj)))).at
          s refl)
    run-MayRename updating s =
        (Leads-keep _ _ (Leads-wrapping _ _ (rotation-MayRename (name_of s.obj)))
            (λ creds. Keeps-pure _)).at
          s refl

    -- If an external name that was set is read back, and the helpers for finalizers and Kubernetes
    -- leave it alone, then any sequence of observations, creations, updates and deletions of a binding,
    -- whatever the broker answers, refines the life of its identifier: a creation may give a binding
    -- without one a new UUID, an update may replace the one that is there by a new UUID, and nothing
    -- else changes it.
    pub run_all-Lives :
        (ops : List Operation) (s : Session (ServiceBinding P))
        → Lives w.new_uuid ops (name_of s.obj) (name_of (run_all P w c ops s).obj)
    unfolding run_all
    run_all-Lives [] s = stop
    run_all-Lives (op ∷ ops) s = next (run-MayRename op s) (run_all-Lives ops (run P w c op s))
