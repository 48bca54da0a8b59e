-- ===== src/Util/Client/Failures.antt =====
-- How the resolution of a provider's configuration fails.
use provider_osb.Base.{
  Option-cases, ◌<>◌, ◌≡◌, ◌≢◌, ◌⊎◌, inl, inr, Bool-cases, none, some, ◌∷◌, arith, length, eq_iff,
  ◌==◌,
}
use provider_osb.Errors.{Error, fail, detail, wrap, wrap_at, UtilError, of_util}
use provider_osb.Config.{
  ProviderConfigReference, provider_config_kind, cluster_provider_config_kind, ObjectKey,
}
use provider_osb.Platform.{Platform, World, Call}
use provider_osb.Exec.{Session, err, ◌>>=◌}
use provider_osb.Exec.Rules.{Fallible-cases}
use provider_osb.Util.Client.{ProviderReferencer, resolve_provider_config, resolve_reference}

module _ (P : Platform) {O : Type 0} (w : World P O) where
  -- The reference names no known kind, and nothing was called.
  abbrev pub UnknownKind : ProviderConfigReference → Error → Session O → Session O → Type 0
  UnknownKind ref e s t =
      (ref.kind ≢ provider_config_kind)
      × (ref.kind ≢ cluster_provider_config_kind)
      × (e ≡ detail (of_util UtilError.unknown_provider_config_kind) ref.kind)
      × (t ≡ s)

  -- Kubernetes refused the configuration in the namespace of the object.
  abbrev pub NamespacedRefused :
      P.ObjectMeta → ProviderConfigReference → Error → Session O → Session O → Type 0
  NamespacedRefused m ref e s t =
      let key : ObjectKey = record { name = ref.name; namespace = P.get_namespace m } in
      (cause : Error) × (ref.kind ≡ provider_config_kind)
      × (w.get_provider_config (length s.calls) key ≡ fail cause)
      × (e
          ≡ wrap_at (of_util UtilError.cannot_get_provider_config)
              ("with name: " <> ref.name <> ", in namespace: " <> P.get_namespace m) cause)
      × (t ≡ record s { calls = Call.get_provider_config key ∷ s.calls })

  -- Kubernetes refused the configuration of the cluster.
  abbrev pub ClusterRefused : ProviderConfigReference → Error → Session O → Session O → Type 0
  ClusterRefused ref e s t =
      let key : ObjectKey = record { name = ref.name; namespace = "" } in
      (cause : Error) × (ref.kind ≡ cluster_provider_config_kind)
      × (w.get_cluster_provider_config (length s.calls) key ≡ fail cause)
      × (e ≡ wrap (of_util UtilError.cannot_get_cluster_provider_config) cause)
      × (t ≡ record s { calls = Call.get_cluster_provider_config key ∷ s.calls })

  abbrev pub ReferenceFails :
      P.ObjectMeta → ProviderConfigReference → Error → Session O → Session O → Type 0
  ReferenceFails m ref e s t =
      UnknownKind ref e s t ⊎ (NamespacedRefused m ref e s t ⊎ ClusterRefused ref e s t)

  resolve_reference-fails :
      (m : P.ObjectMeta) (ref : ProviderConfigReference) (s : Session O) (e : Error)
      → (resolve_reference P w m ref s).0 ≡ err e
      → ReferenceFails m ref e s (resolve_reference P w m ref s).1
  unfolding ◌>>=◌ resolve_reference
  resolve_reference-fails m ref s e h =
      let key : ObjectKey = record { name = ref.name; namespace = P.get_namespace m } in
      let cluster_key : ObjectKey = record { name = ref.name; namespace = "" } in
      let kind_eq = eq_iff ref.kind provider_config_kind in
      let cluster_eq = eq_iff ref.kind cluster_provider_config_kind in
      elim (Bool-cases (ref.kind == provider_config_kind)) [
        | inl kind ↦ elim (Fallible-cases (w.get_provider_config (length s.calls) key)) [
          | inl (cause, failed) ↦
              inr (inl (cause, ground (arith, kind_eq), failed, ground arith, ground arith))
          | inr (npc, got) ↦ absurd (ground arith)
        ]
        | inr other ↦ elim (Bool-cases (ref.kind == cluster_provider_config_kind)) [
          | inl kind ↦
              elim (Fallible-cases (w.get_cluster_provider_config (length s.calls) cluster_key)) [
                | inl (cause, failed) ↦
                    inr
                      (inr (cause, ground (arith, cluster_eq), failed, ground arith, ground arith))
                | inr (cpc, got) ↦ absurd (ground arith)
              ]
          | inr unknown ↦
              inl (ground (arith, kind_eq), ground (arith, cluster_eq), ground arith, ground arith)
        ]
      ]

  -- The resolution fails in one of four ways. Without a reference, or with one of an unknown kind,
  -- nothing is called, and the error names the object or the kind. Otherwise Kubernetes refused the
  -- configuration that the reference names, once, and its error is the cause.
  pub resolve_provider_config-fails :
      (obj : ProviderReferencer P O) (s : Session O) (e : Error)
      → (resolve_provider_config P w obj s).0 ≡ err e
      → let t = (resolve_provider_config P w obj s).1 in
        let m = obj.get_meta s.obj in
        ((obj.get_provider_config_reference s.obj ≡ none)
          × (e
              ≡ detail
                  (of_util UtilError.no_provider_config_reference)
                  (P.get_namespace m <> "/" <> P.get_name m))
          × (t ≡ s))
        ⊎ ((ref : ProviderConfigReference) × (obj.get_provider_config_reference s.obj ≡ some ref)
            × ReferenceFails m ref e s t)
  unfolding ◌>>=◌ resolve_provider_config
  resolve_provider_config-fails obj s e h =
      elim (Option-cases (obj.get_provider_config_reference s.obj)) [
        | inl nil ↦ inl (nil, ground arith, ground arith)
        | inr (ref, given) ↦ inr (
          ref,
          given,
          rw given (resolve_reference-fails (obj.get_meta s.obj) ref s e (rw given at h)),
        )
      ]
