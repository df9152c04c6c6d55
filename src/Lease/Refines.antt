-- ===== src/Lease/Refines.antt =====
-- lease.ts: the table refines the specification, and `make` accepts it.
use cf_open_agents_api.Prelude.{◌≤◌, ◌≡◌, ok, arith, refl}
use cf_open_agents_api.Machine.Defs.{make, step, finish_step}
use cf_open_agents_api.Lease.Table.{
  LeaseFacts, container_spec, container_implementation, container_lease, max_time,
}
use cf_open_agents_api.Lease.Spec.{
  Lease, stopped, running, retired, LeaseEvent, need, touch, idle, boot_failed, stop, retire,
  change, lease_state, lease_event, change_step, IsLeaseValid, IsEventValid,
}

pub container_lease_made : make container_spec container_implementation ≡ ok container_lease
unfolding make container_lease
container_lease_made = refl

-- On valid data, under a valid clock, the machine's step is the specification's change.
pub container_lease_refines :
    (s : Lease) (e : LeaseEvent) (f : LeaseFacts)
    → IsLeaseValid s
    → IsEventValid e
    → f.now ≤ max_time
    → step container_lease (lease_state s) (lease_event e) f ≡ ok (change_step s (change s e f))
unfolding step finish_step container_lease change
container_lease_refines retired e f v w t = refl
container_lease_refines stopped (need d) f v w t = ground arith
container_lease_refines stopped _ f v w t = refl
container_lease_refines (running r) (need d) f v w t = ground arith
container_lease_refines (running r) touch f v w t = ground arith
container_lease_refines (running r) idle f v w t = ground arith
container_lease_refines (running r) (boot_failed why) f v w t = refl
container_lease_refines (running r) (stop why) f v w t = refl
container_lease_refines (running r) retire f v w t = refl
