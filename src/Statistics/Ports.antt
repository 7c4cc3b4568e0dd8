-- ===== src/Statistics/Ports.antt =====
-- The port of which the programs print the statistics.
use mathlib.Core.Path.{subst}
use flo_watcher_dpdk.Common.{
  ℕ, zero, suc, ◌+◌, ◌≤◌, ◌<◌, ◌≡◌, true, false, arith, Bool-cases, inl, inr, ◌⊎◌, leb,
}
use flo_watcher_dpdk.Pthread.Startup.{enabled}
use flo_watcher_dpdk.Statistics.{first_enabled}

-- no port from `low` on and below `high` is enabled
abbrev pub NoneEnabled : ℕ → ℕ → ℕ → Type 0
NoneEnabled mask low high = (p : ℕ) → low ≤ p → p < high → enabled mask p ≡ false

first_enabled-from :
    (mask rounds port : ℕ)
    → let p = first_enabled mask rounds port in
      NoneEnabled mask port p
      × (((p < port + rounds) × (enabled mask p ≡ true)) ⊎ (p ≡ port + rounds))
unfolding first_enabled
first_enabled-from mask zero port = (λ p low high. absurd (omega arith), inr (omega arith))
first_enabled-from mask (suc rounds) port = elim (Bool-cases (enabled mask port)) [
  | inl on ↦ rw on (λ p low high. absurd (omega arith), inl (omega arith, on))
  | inr off ↦
      let (before, found) = first_enabled-from mask rounds (port + 1) in
      rw off (
        λ p low high. elim (Bool-cases (leb p port)) [
          | inl here ↦
              let same : port ≡ p = ground arith in subst (λ p. enabled mask p ≡ false) same off
          | inr later ↦ before p (ground arith) high
        ],
        elim found [ inl (inside, e) ↦ inl (omega arith, e) | inr e ↦ inr (omega arith) ],
      )
]

-- The statistics are those of the first port that the mask enables; if it enables none of the ports,
-- they are those of the port behind the last one, which is not there.
pub first_enabled-least :
    (mask nb_ports : ℕ)
    → let p = first_enabled mask nb_ports 0 in
      NoneEnabled mask 0 p × (((p < nb_ports) × (enabled mask p ≡ true)) ⊎ (p ≡ nb_ports))
first_enabled-least mask nb_ports =
    let (before, found) = first_enabled-from mask nb_ports 0 in
    (before, elim found [ inl (inside, e) ↦ inl (omega arith, e) | inr e ↦ inr (omega arith) ])
