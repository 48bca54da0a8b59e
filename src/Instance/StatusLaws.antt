-- ===== src/Instance/StatusLaws.antt =====
-- The two ways in which the source writes the status of an instance from a response.
use provider_osb.Base.{◌≡◌, arith}
use provider_osb.Osb.{AsyncResponse}
use provider_osb.Platform.{Platform}
use provider_osb.Instance.{ServiceInstance, update_status, update_status_from_osb}

-- `UpdateStatus`, which writes the fields itself, and `UpdateStatusFromOSB`, which goes through the
-- setters, leave the same instance for every response.
pub update_status-eq-update_status_from_osb :
    (P : Platform) (resp : AsyncResponse) (si : ServiceInstance P)
    → update_status P resp si ≡ update_status_from_osb P resp si
unfolding update_status update_status_from_osb
update_status-eq-update_status_from_osb P resp si = ground arith
