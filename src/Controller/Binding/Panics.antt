-- ===== src/Controller/Binding/Panics.antt =====
-- Creating and deleting a binding survive every answer of the broker's client.
use provider_osb.Base.{◌≢◌, arith}
use provider_osb.Platform.{Platform, World}
use provider_osb.Exec.{Session, panic, ◌>>=◌}
use provider_osb.Binding.{ServiceBinding}
use provider_osb.Binding.Operations.{un_bind}
use provider_osb.Binding.Operations.Outcomes.{bind-BindOutcome}
use provider_osb.Controller.Binding.{External, create, delete}

module _ (P : Platform) (w : World P (ServiceBinding P)) (c : External)
    (s : Session (ServiceBinding P)) where
  -- Deleting a binding does not panic, whatever the broker and Kubernetes answer, a nil response
  -- included.
  pub delete-ne-panic : (delete P w c s).0 ≢ panic
  unfolding ◌>>=◌ delete un_bind
  delete-ne-panic = ground arith

  -- Creating a binding does not panic, whatever the broker and Kubernetes answer, a nil response
  -- included.
  pub create-ne-panic : (create P w c s).0 ≢ panic
  unfolding ◌>>=◌ create
  create-ne-panic = ground (arith, bind-BindOutcome P w c.originating_identity c.disable_async s)
