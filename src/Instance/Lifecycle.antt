-- ===== src/Instance/Lifecycle.antt =====
-- The life of an instance as a machine: what its status says of the last operation, and how that may
-- change.
use provider_osb.Base.{String, Bool, false, ◌≡◌, ◌≢◌, ◌⊎◌, Option, none, some, List, [], ◌∷◌}
use provider_osb.Osb.{LastOperationState, in_progress, succeeded, deleting}
use provider_osb.Platform.{Platform}
use provider_osb.Instance.{ServiceInstance, ServiceInstanceObservation}

-- What the status says of the last operation.
pub record View : Type 0 where
  pub state : LastOperationState
  pub key : String
  pub bound : Bool

abbrev pub view_of : ServiceInstanceObservation → View
view_of o = record {
  state = o.last_operation_state;
  key = o.last_operation_key;
  bound = o.has_active_bindings;
}

abbrev pub view : {P : Platform} → ServiceInstance P → View
view si = view_of si.at_provider

-- The key of an operation that the broker named, or the old one.
abbrev pub key_after : Option String → String → String
key_after none old = old
key_after (some key) old = key

abbrev pub in_state : LastOperationState → View → View
in_state state v = record v { state = state }

abbrev pub begun : LastOperationState → Option String → View → View
begun state key v = record v { state = state; key = key_after key v.key }

-- What a call of the controller does with the broker.
pub data Activity : Type 0 where
  polling sending removing : Activity

-- One change of the view.
infix 40 ◌⊢◌⟶◌
pub data ◌⊢◌⟶◌ : Activity → View → View → Type 0 where
  polled : {v : View} → v.key ≢ "" → (state : LastOperationState) → polling ⊢ v ⟶ in_state state v
  sent : {v : View} → sending ⊢ v ⟶ in_state succeeded v
  sent_async : {v : View} → (key : Option String) → sending ⊢ v ⟶ begun in_progress key v
  removed_async :
      {v : View} → v.bound ≡ false → (key : Option String) → removing ⊢ v ⟶ begun deleting key v

-- Nothing changed, or one change was made.
abbrev pub MayStep : Activity → View → View → Type 0
MayStep a v t = (v ≡ t) ⊎ (a ⊢ v ⟶ t)

-- The machine runs through some activities, with at most one change in each.
pub data Runs : List Activity → View → View → Type 0 where
  stop : {v : View} → Runs [] v v
  next :
      {a : Activity}
      → {rest : List Activity} → {v u t : View} → MayStep a v u
      → Runs rest u t
      → Runs (a ∷ rest) v t
