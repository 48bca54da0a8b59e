-- ===== src/Binding/Operations/Naming.antt =====
-- The life of the identifier of a binding, its external name, beside the methods that may change it.
use provider_osb.Base.{
  ℕ, String, Bool, Bool-cases, true, false, is_empty, ◌≡◌, ◌⊎◌, ◌∙◌, inl, inr, refl, Option, none,
  some, arith, eq_iff, length,
}
use provider_osb.Json.{GoMap}
use provider_osb.Osb.{OriginatingIdentity, BindResponse, UnbindResponse, Reply, answer, failure}
use provider_osb.Platform.{Platform, World}
use provider_osb.Platform.Laws.{IsLawful}
use provider_osb.Exec.{modify, ◌>>=◌, ◌>>◌}
use provider_osb.Exec.Keeps.{
  Keeps, Keeps-pure, Keeps-raise, Keeps-lift, Keeps-bind, Keeps-wrapping, Keeps-if, Keeps-modify,
  Keeps-gets-bind, Keeps-ask-bind,
}
use provider_osb.Exec.Leads.{Leads, Leads-wrapping, Leads-keep, Leads-lift_bind, Leads-gets_bind}
use provider_osb.Util.{handle_async_status, add_finalizer_if_not_exists, remove_finalizer_if_exists}
use provider_osb.Util.Kube.{handle_finalizer}
use provider_osb.Binding.{
  ServiceBinding, meta_of, async_deletion_finalizer, get_external_name, set_external_name,
  handle_async_status_setter, set_last_operation_state, set_last_operation_key,
}
use provider_osb.Binding.Operations.{
  bind, build_bind_request, ensure_binding_uuid, handle_bind_request, after_bind, un_bind,
  handle_un_bind_request, after_unbind,
}

-- The helpers for finalizers leave the external name alone, and so does Kubernetes.
pub record KeepsName {P : Platform} (w : World P (ServiceBinding P)) : Type 0 where
  pub added :
      (m : P.ObjectMeta) (f : String)
      → P.get_external_name (P.add_finalizer m f) ≡ P.get_external_name m
  pub removed :
      (m : P.ObjectMeta) (f : String)
      → P.get_external_name (P.remove_finalizer m f) ≡ P.get_external_name m
  pub got :
      (n : ℕ) (sb : ServiceBinding P)
      → P.get_external_name (w.kube_get n sb).object.meta ≡ P.get_external_name sb.meta
  pub updated :
      (n : ℕ) (sb : ServiceBinding P)
      → P.get_external_name (w.kube_update n sb).object.meta ≡ P.get_external_name sb.meta

abbrev pub name_of : {P : Platform} → ServiceBinding P → String
name_of {P} sb = P.get_external_name sb.meta

abbrev pub Named : {P : Platform} → String → ServiceBinding P → Type 0
Named v sb = v ≡ name_of sb

-- A binding has a new name if it had none, and keeps it otherwise.
abbrev pub MayName :
    {P : Platform} → World P (ServiceBinding P) → String → ServiceBinding P → Type 0
MayName w v sb = (v ≡ name_of sb) ⊎ ((v ≡ "") × ((n : ℕ) × (name_of sb ≡ w.new_uuid n)))

module _ (P : Platform) (w : World P (ServiceBinding P)) (k : KeepsName w) where
  async-name :
      (key : Option String) (sb : ServiceBinding P)
      → name_of (handle_async_status (handle_async_status_setter P) key sb) ≡ name_of sb
  unfolding handle_async_status handle_async_status_setter set_last_operation_state
      set_last_operation_key
  async-name none sb = refl
  async-name (some key) sb = refl

  add_finalizer-name :
      (m : P.ObjectMeta) (f : String)
      → P.get_external_name (add_finalizer_if_not_exists P m f).1 ≡ P.get_external_name m
  unfolding add_finalizer_if_not_exists
  add_finalizer-name m f = ground (arith, k.added m f)

  pub remove_finalizer-name :
      (m : P.ObjectMeta) (f : String)
      → P.get_external_name (remove_finalizer_if_exists P m f).1 ≡ P.get_external_name m
  unfolding remove_finalizer_if_exists
  remove_finalizer-name m f = ground (arith, k.removed m f)

  -- A predicate that looks at the name only.
  abbrev pub OfName : (ServiceBinding P → Type 0) → Type 0
  OfName Q = (o t : ServiceBinding P) → name_of t ≡ name_of o → Q o → Q t

  module _ {Q : ServiceBinding P → Type 0} (of_name : OfName Q) where
    pub Keeps-finalizer :
        (f : P.ObjectMeta → String → Bool × P.ObjectMeta)
        → ((m : P.ObjectMeta) (t : String) → P.get_external_name (f m t).1 ≡ P.get_external_name m)
        → Keeps Q (handle_finalizer P w (meta_of P) async_deletion_finalizer f)
    unfolding ◌>>=◌ handle_finalizer
    Keeps-finalizer f same = record {
      at = λ s h. elim (Bool-cases (f s.obj.meta async_deletion_finalizer).0) [
        | inl changed ↦
            rw (changed, handle_finalizer)
              (of_name s.obj _ (k.updated _ _ ∙ same s.obj.meta async_deletion_finalizer) h)
        | inr unchanged ↦
            rw (unchanged, handle_finalizer)
              (of_name s.obj _ (same s.obj.meta async_deletion_finalizer) h)
      ];
    }

    Keeps-async :
        (key : Option String)
        → Keeps Q (modify (handle_async_status (handle_async_status_setter P) key))
    Keeps-async key = Keeps-modify _ λ sb h. of_name sb _ (async-name key sb) h

    after_unbind-Keeps : (reply : Reply UnbindResponse) → Keeps Q (after_unbind P w reply)
    unfolding after_unbind
    after_unbind-Keeps (failure e) = Keeps-raise _
    after_unbind-Keeps (answer none) = Keeps-raise _
    after_unbind-Keeps (answer (some resp)) =
        Keeps-if resp.async _ _
          (Keeps-bind _ _ (Keeps-async resp.operation_key) (λ _.
            Keeps-bind _ _
              (Keeps-wrapping _ _
                (Keeps-finalizer (add_finalizer_if_not_exists P) add_finalizer-name))
              (λ _. Keeps-pure true)))
          (Keeps-pure false)

    pub un_bind-Keeps : (oid : OriginatingIdentity) → Keeps Q (un_bind P w oid)
    unfolding un_bind handle_un_bind_request
    un_bind-Keeps oid = Keeps-gets-bind _ _ λ sb.
        Keeps-bind _ _ (Keeps-lift _)
          λ req. Keeps-wrapping _ _ (Keeps-ask-bind _ _ _ λ n. after_unbind-Keeps _)

    after_bind-Keeps :
        (reply : Reply (BindResponse P.Endpoints P.VolumeMounts)) → Keeps Q (after_bind P w reply)
    unfolding after_bind
    after_bind-Keeps (failure e) = Keeps-raise _
    after_bind-Keeps (answer none) = Keeps-raise _
    after_bind-Keeps (answer (some resp)) =
        Keeps-if resp.async _ _
          (Keeps-bind _ _ (Keeps-async resp.operation_key) (λ _. Keeps-pure _)) (Keeps-pure _)

  module _ (lawful : IsLawful P) (v : String) where
    pub MayName-of_name : OfName (MayName w v)
    MayName-of_name o t same h = rw same h

    -- The only step of a binding that may give it a name.
    ensure_binding_uuid-MayName : Leads (Named v) (MayName w v) (ensure_binding_uuid P w)
    unfolding ◌>>=◌ ensure_binding_uuid get_external_name set_external_name
    ensure_binding_uuid-MayName = record {
      at = λ s h. elim (Bool-cases (is_empty (name_of s.obj))) [
        | inl unnamed ↦
            rw (unnamed, ◌>>◌)
              (inr (
                ground (arith, h, eq_iff (name_of s.obj) ""),
                (length s.calls, lawful.get-set_external_name _ _),
              ))
        | inr given ↦ rw given (inl h)
      ];
    }

    build_bind_request-MayName :
        (oid : OriginatingIdentity) (ctx_map params : GoMap) (disable_async : Bool)
        → Leads (Named v) (MayName w v) (build_bind_request P w oid ctx_map params disable_async)
    unfolding build_bind_request
    build_bind_request-MayName oid ctx_map params disable_async = Leads-gets_bind _ _ λ sb.
        Leads-lift_bind (λ o h. inl h) _ _
          λ _. Leads-keep _ _ ensure_binding_uuid-MayName (λ id. Keeps-pure _)

    pub bind-MayName :
        (oid : OriginatingIdentity) (disable_async : Bool)
        → Leads (Named v) (MayName w v) (bind P w oid disable_async)
    unfolding bind handle_bind_request
    bind-MayName oid disable_async = Leads-gets_bind _ _ λ sb.
        Leads-lift_bind (λ o h. inl h) _ _
          λ specs.
            Leads-keep _ _
              (Leads-wrapping _ _ (build_bind_request-MayName oid specs.0 specs.1 disable_async))
              (λ req. Keeps-ask-bind _ _ _ λ n. after_bind-Keeps MayName-of_name _)
