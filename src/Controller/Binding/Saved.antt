-- ===== src/Controller/Binding/Saved.antt =====
-- What is stored of a binding after a method of the controller has changed it in memory: by the
-- documentation of crossplane-runtime, its managed reconciler saves the metadata after `Create`, and
-- no change of the status, and the status after `Update`, through the subresource, and no metadata.
use provider_osb.Base.{◌≡◌}
use provider_osb.Platform.{Platform}
use provider_osb.Binding.{ServiceBinding}

module _ {P : Platform} (before after stored : ServiceBinding P) where
  pub record MetadataSaved : Type 0 where
    pub meta : stored.meta ≡ after.meta
    pub spec : stored.for_provider ≡ before.for_provider
    pub status : stored.at_provider ≡ before.at_provider

  pub record StatusSaved : Type 0 where
    pub meta : stored.meta ≡ before.meta
    pub spec : stored.for_provider ≡ before.for_provider
    pub status : stored.at_provider ≡ after.at_provider
