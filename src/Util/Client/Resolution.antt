-- ===== src/Util/Client/Resolution.antt =====
-- Which configuration of the provider an object is given.
use provider_osb.Base.{
  Option-cases, ℕ, ◌≡◌, ◌⊎◌, inl, inr, refl, Bool-cases, some, ◌∷◌, arith, length, eq_iff, ◌==◌,
}
use provider_osb.Errors.{done}
use provider_osb.Config.{
  ProviderConfig, ClusterProviderConfig, namespaced, cluster, ProviderConfigReference,
  provider_config_kind, cluster_provider_config_kind, ObjectKey,
}
use provider_osb.Platform.{Platform, World, Call}
use provider_osb.Exec.{Exec, Session, ok, ◌>>=◌}
use provider_osb.Exec.Inversion.{Succeeds, bind-inv, Succeeds-from}
use provider_osb.Exec.Rules.{Fallible-cases}
use provider_osb.Util.Client.{
  ProviderReferencer, Resolved, resolve_provider_config, resolve_reference,
}

module _ (P : Platform) {O : Type 0} (w : World P O) where
  -- What a reference of an object with this metadata is resolved to by the answer to call `n`.
  abbrev pub IsResolved :
      P.ObjectMeta → ProviderConfigReference → ℕ → Resolved P w → Call O → Type 0
  IsResolved m ref n r call =
      ((ref.kind ≡ provider_config_kind)
        × (call
            ≡ Call.get_provider_config (record { name = ref.name; namespace = P.get_namespace m }))
        × ((npc : ProviderConfig P.ObjectMeta P.Selectors) × (w.get_provider_config n
                (record { name = ref.name; namespace = P.get_namespace m })
              ≡ done npc)
            × (r ≡ (namespaced npc, npc.spec))))
      ⊎ ((ref.kind ≡ cluster_provider_config_kind)
          × (call ≡ Call.get_cluster_provider_config (record { name = ref.name; namespace = "" }))
          × ((cpc : ClusterProviderConfig P.ObjectMeta P.Selectors) × (w.get_cluster_provider_config
                  n (record { name = ref.name; namespace = "" })
                ≡ done cpc)
              × (r ≡ (cluster cpc, cpc.spec))))

  -- One call was made, and it resolved the reference.
  abbrev pub ResolvesBy :
      P.ObjectMeta → ProviderConfigReference → Session O → Resolved P w → Session O → Type 0
  ResolvesBy m ref s r t =
      (call : Call O) × IsResolved m ref (length s.calls) r call
      × (t ≡ record s { calls = call ∷ s.calls })

  resolve_reference-ResolvesBy :
      (m : P.ObjectMeta) (ref : ProviderConfigReference) (s : Session O) (r : Resolved P w)
      → (resolve_reference P w m ref s).0 ≡ ok r
      → ResolvesBy m ref s r (resolve_reference P w m ref s).1
  unfolding ◌>>=◌ resolve_reference
  resolve_reference-ResolvesBy m ref s r h =
      let key : ObjectKey = record { name = ref.name; namespace = P.get_namespace m } in
      let cluster_key : ObjectKey = record { name = ref.name; namespace = "" } in
      elim (Bool-cases (ref.kind == provider_config_kind)) [
        | inl kind ↦ elim (Fallible-cases (w.get_provider_config (length s.calls) key)) [
          | inl (e, failed) ↦ absurd (ground arith)
          | inr (npc, got) ↦ (
            Call.get_provider_config key,
            inl (
              ground (arith, eq_iff ref.kind provider_config_kind),
              refl,
              (npc, got, ground arith),
            ),
            ground arith,
          )
        ]
        | inr other ↦ elim (Bool-cases (ref.kind == cluster_provider_config_kind)) [
          | inl kind ↦
              elim (Fallible-cases (w.get_cluster_provider_config (length s.calls) cluster_key)) [
                | inl (e, failed) ↦ absurd (ground arith)
                | inr (cpc, got) ↦ (
                  Call.get_cluster_provider_config cluster_key,
                  inr (
                    ground (arith, eq_iff ref.kind cluster_provider_config_kind),
                    refl,
                    (cpc, got, ground arith),
                  ),
                  ground arith,
                )
              ]
          | inr unknown ↦ absurd (ground arith)
        ]
      ]

  pub resolve_provider_config-ResolvesBy :
      (obj : ProviderReferencer P O) (s : Session O) (r : Resolved P w)
      → (resolve_provider_config P w obj s).0 ≡ ok r
      → (ref : ProviderConfigReference) × (obj.get_provider_config_reference s.obj ≡ some ref)
        × ResolvesBy (obj.get_meta s.obj) ref s r (resolve_provider_config P w obj s).1
  unfolding ◌>>=◌ resolve_provider_config
  resolve_provider_config-ResolvesBy obj s r h =
      elim (Option-cases (obj.get_provider_config_reference s.obj)) [
        | inl nil ↦ absurd (ground arith)
        | inr (ref, given) ↦
            (ref, given, ground (arith, resolve_reference-ResolvesBy (obj.get_meta s.obj) ref s r))
      ]

  module _ {B C : Type 0} {s : Session O} {b : B} {u : Session O} where
    -- A sequence that begins with the resolution, and succeeded.
    pub bind_resolve_inv :
        (obj : ProviderReferencer P O) (f : Resolved P w → Exec O B)
        → Succeeds (resolve_provider_config P w obj >>= f) s b u
        → ((ref : ProviderConfigReference) (r : Resolved P w) (call : Call O)
            → obj.get_provider_config_reference s.obj ≡ some ref
            → IsResolved (obj.get_meta s.obj) ref (length s.calls) r call
            → Succeeds (f r) (record s { calls = call ∷ s.calls }) b u
            → C)
        → C
    bind_resolve_inv obj f h k = bind-inv f (resolve_provider_config P w obj) h λ r made next.
        let (ref, given, (call, resolves, after)) =
          resolve_provider_config-ResolvesBy obj s r made in
        k ref r call given resolves (Succeeds-from after next)
