-- ===== src/Binding/StatusLaws.antt =====
-- What the status of a binding says after an answer of the broker was written into it.
use provider_osb.Base.{String, true, ◌≡◌, ◌≢◌, some, inl, inr, arith, eq_iff}
use provider_osb.Errors.{done}
use provider_osb.Exec.Rules.{Fallible-cases}
use provider_osb.Json.{GoMap, deep_equal_maps}
use provider_osb.Common.Serial.{map_value, to_parameters}
use provider_osb.Osb.{GetBindingResponse}
use provider_osb.Platform.{Platform}
use provider_osb.Platform.Laws.{ReadsBack}
use provider_osb.Binding.{
  ServiceBinding, ServiceBindingObservation, update_binding_status_from_response,
}
use provider_osb.Binding.Texts.{to_endpoints, to_volume_mounts}

module _ (P : Platform) where
  -- The readers of the texts in the status give what the response had.
  pub record ReadsAs (resp : GetBindingResponse P.Endpoints P.VolumeMounts)
      (o : ServiceBindingObservation) : Type 0 where
    pub parameters :
        (m : GoMap) × (to_parameters P o.parameters ≡ done m)
        × (deep_equal_maps m resp.parameters ≡ true)
    pub endpoints :
        (e : P.Endpoints) → resp.endpoints ≡ some e → to_endpoints P (some o.endpoints) ≡ done e
    pub volume_mounts :
        (v : P.VolumeMounts)
        → resp.volume_mounts ≡ some v
        → to_volume_mounts P (some o.volume_mounts) ≡ done v
    pub route_service_url : o.route_service_url ≡ resp.route_service_url
    pub syslog_drain_url : o.syslog_drain_url ≡ resp.syslog_drain_url
    pub metadata : o.metadata ≡ resp.metadata

  -- What an answer never changes.
  pub record SameOperation (sb t : ServiceBinding P) : Type 0 where
    pub spec : t.for_provider ≡ sb.for_provider
    pub meta : t.meta ≡ sb.meta
    pub reference : t.provider_config_reference ≡ sb.provider_config_reference
    pub conditions : t.conditions ≡ sb.conditions
    pub state : t.at_provider.last_operation_state ≡ sb.at_provider.last_operation_state
    pub key : t.at_provider.last_operation_key ≡ sb.at_provider.last_operation_key
    pub description :
        t.at_provider.last_operation_description ≡ sb.at_provider.last_operation_description
    pub polled_time :
        t.at_provider.last_operation_polled_time ≡ sb.at_provider.last_operation_polled_time

  to_parameters-filled :
      (t : String) (m : GoMap) → t ≢ "" → P.unmarshal_map t ≡ done m → to_parameters P t ≡ done m
  unfolding to_parameters
  to_parameters-filled t m filled read = ground (arith, eq_iff t "")

  to_endpoints-filled :
      (t : String) (e : P.Endpoints)
      → t ≢ ""
      → P.unmarshal_endpoints t ≡ done e
      → to_endpoints P (some t) ≡ done e
  unfolding to_endpoints
  to_endpoints-filled t e filled read = ground (arith, eq_iff t "")

  to_volume_mounts-filled :
      (t : String) (v : P.VolumeMounts)
      → t ≢ ""
      → P.unmarshal_volume_mounts t ≡ done v
      → to_volume_mounts P (some t) ≡ done v
  unfolding to_volume_mounts
  to_volume_mounts-filled t v filled read = ground (arith, eq_iff t "")

  module _ (resp : GetBindingResponse P.Endpoints P.VolumeMounts) (sb t : ServiceBinding P) where
    -- The texts that were written.
    pub record Written : Type 0 where
      pub parameters : P.marshal_value (map_value resp.parameters) ≡ done t.at_provider.parameters
      pub endpoints : P.marshal_endpoints resp.endpoints ≡ done t.at_provider.endpoints
      pub volume_mounts :
          P.marshal_volume_mounts resp.volume_mounts ≡ done t.at_provider.volume_mounts
      pub route_service_url : t.at_provider.route_service_url ≡ resp.route_service_url
      pub syslog_drain_url : t.at_provider.syslog_drain_url ≡ resp.syslog_drain_url
      pub metadata : t.at_provider.metadata ≡ resp.metadata
      pub same : SameOperation sb t

    pub update_status-Written : update_binding_status_from_response P resp sb ≡ done t → Written
    unfolding update_binding_status_from_response
    update_status-Written h = elim (Fallible-cases (P.marshal_value (map_value resp.parameters))) [
      | inl (e, failed) ↦ absurd (ground arith)
      | inr (ps, wrote_ps) ↦ elim (Fallible-cases (P.marshal_endpoints resp.endpoints)) [
        | inl (e, failed) ↦ absurd (ground arith)
        | inr (es, wrote_es) ↦ elim (Fallible-cases (P.marshal_volume_mounts resp.volume_mounts)) [
          | inl (e, failed) ↦ absurd (ground arith)
          | inr (vs, wrote_vs) ↦ record {
            parameters = ground arith;
            endpoints = ground arith;
            volume_mounts = ground arith;
            route_service_url = ground arith;
            syslog_drain_url = ground arith;
            metadata = ground arith;
            same = record {
              spec = ground arith;
              meta = ground arith;
              reference = ground arith;
              conditions = ground arith;
              state = ground arith;
              key = ground arith;
              description = ground arith;
              polled_time = ground arith;
            };
          }
        ]
      ]
    ]

    -- If JSON reads back what it wrote, then the status that was updated from a response of the broker
    -- is read back as that response: parameters that are deeply equal, the endpoints and the volume
    -- mounts that it had, and the same URLs and metadata. The rest of the binding, and what the
    -- status says of the last operation, are as they were.
    pub update_status-ReadsAs :
        ReadsBack P
        → update_binding_status_from_response P resp sb ≡ done t
        → ReadsAs resp t.at_provider × SameOperation sb t
    update_status-ReadsAs reads h =
        let o : ServiceBindingObservation = t.at_provider in
        let written = update_status-Written h in
        let (filled, (m, read, equal)) =
          reads.map_read resp.parameters o.parameters written.parameters in
        (
          record {
            parameters = (m, to_parameters-filled o.parameters m filled read, equal);
            endpoints = λ e given.
                let (filled_e, read_e) =
                  reads.endpoints_read e o.endpoints (rw given at written.endpoints) in
                to_endpoints-filled o.endpoints e filled_e read_e;
            volume_mounts = λ v given.
                let (filled_v, read_v) =
                  reads.volume_mounts_read v o.volume_mounts (rw given at written.volume_mounts) in
                to_volume_mounts-filled o.volume_mounts v filled_v read_v;
            route_service_url = written.route_service_url;
            syslog_drain_url = written.syslog_drain_url;
            metadata = written.metadata;
          },
          written.same,
        )
