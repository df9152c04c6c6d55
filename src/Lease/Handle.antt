-- ===== src/Lease/Handle.antt =====
-- lease.ts, `makeLease`: what the object decides around the machine. The requests in flight, the
-- last boot error and whether the container runs are arguments.
use cf_open_agents_api.Prelude.{
  ℕ, ◌-◌, min, max, ◌≡◌, ◌↔◌, Bool, true, false, not, ◌||◌, List, [], ◌∷◌, Result, ok, err, arith,
  refl, if◌then◌else◌, ltb, ◌==◌, string_eq,
}
use cf_open_agents_api.Store.Memory.{OutboxEntry}
use cf_open_agents_api.Lease.Table.{min_idle_ms, max_idle_ms}
use cf_open_agents_api.Lease.Spec.{Lease, stopped, running, retired, need, IsEventValid}

-- `TOUCH_INTERVAL_MS`
abbrev pub touch_interval_ms : ℕ
touch_interval_ms = 15000

-- `idleMs()`, from the rounded option.
unfoldable pub idle_ms : ℕ → ℕ
idle_ms wanted = min max_idle_ms (max min_idle_ms wanted)

-- `bootPending()`
unfoldable pub boot_pending : {J : Type 0} → List (OutboxEntry J) → Bool
boot_pending [] = false
boot_pending (entry ∷ rest) = entry.command.tag == "boot" || boot_pending rest

-- `touch`: whether the touch event is applied.
unfoldable pub touches : Lease → ℕ → Bool
touches stopped now = false
touches retired now = false
touches (running r) now = not (ltb (now - r.last_active) touch_interval_ms)

pub data HeldError : Type 0 where
  container_retired : HeldError
  container_misconfigured : HeldError
  still_starting : HeldError
  did_not_start : HeldError

-- The last test of `held`, once the lease is not retired and no misconfiguration is known.
unfoldable pub held_ready : Lease → Bool → Bool → Result HeldError (Unit {0})
held_ready (running r) is_running pending =
    if not is_running || pending
    then err (if pending then still_starting else did_not_start)
    else ok tt
held_ready _ is_running pending = err (if pending then still_starting else did_not_start)

-- `held`; `misconfigured` says that the last boot failed for a misconfiguration.
unfoldable pub held : Lease → Bool → Bool → Bool → Result HeldError (Unit {0})
unfolding held_ready
held retired misconfigured is_running pending = err container_retired
held stopped misconfigured is_running pending =
    if misconfigured then err container_misconfigured else held_ready stopped is_running pending
held (running r) misconfigured is_running pending =
    if misconfigured then err container_misconfigured else held_ready (running r) is_running pending

-- Whatever the deployment asks for, the idle time that `need` carries is one that its schema takes.
pub idle_ms_valid : (wanted : ℕ) → IsEventValid (need (idle_ms wanted))
unfolding idle_ms
idle_ms_valid wanted = omega arith

abbrev is_held : Lease → Bool
is_held (running r) = true
is_held _ = false

-- A request may use the container exactly when the lease holds it, it runs, no boot is queued and
-- the last boot did not fail for a misconfiguration; a retired lease says so before anything else.
pub held_exactly :
    (s : Lease) (misconfigured is_running pending : Bool)
    → ((held s misconfigured is_running pending ≡ ok tt)
        ↔ ((is_held s ≡ true) × (misconfigured ≡ false) × (is_running ≡ true) × (pending ≡ false)))
      × ((held s misconfigured is_running pending ≡ err container_retired) ↔ (s ≡ retired))
unfolding held
held_exactly retired m r p = ((λ h. cc, λ h. cc), (λ h. refl, λ h. refl))
held_exactly stopped m r p = ((λ h. ground arith, λ h. cc), (λ h. ground arith, λ h. cc))
held_exactly (running x) m r p =
    ((λ h. ground arith, λ h. ground arith), (λ h. ground arith, λ h. cc))
