-- ===== src/Tests/Reports.antt =====
-- The theorems about the reports of the three programs for `double`.
use flo_watcher_dpdk.Common.{ℕ, ◌<◌, ◌≡◌, refl, ◌⊎◌, true, [], ◌∷◌, map, arith}
use flo_watcher_dpdk.Common.Int.{ℤ, pos, ◌+ℤ◌, ◌-ℤ◌}
use flo_watcher_dpdk.Pthread.Startup.{enabled}
use flo_watcher_dpdk.RunToCompletion.Timer.{second, watch, watch-Shown, total_seconds}
use flo_watcher_dpdk.Statistics.{first_enabled}
use flo_watcher_dpdk.Statistics.Ports.{NoneEnabled, first_enabled-least}
use flo_watcher_dpdk.Statistics.Rates.{IsExact, Shown}
use flo_watcher_dpdk.Buckets.{total}
use flo_watcher_dpdk.Tests.{integers, everything, packets}
use flo_watcher_dpdk.Tests.RunToCompletion.{double_start}

-- a whole number is itself
abbrev pub Is : ℤ → ℕ → Type 0
Is x n = x ≡ pos n

pub integers-IsExact : IsExact integers Is
unfolding ◌+ℤ◌ ◌-ℤ◌
integers-IsExact = record {
  zero_is = refl;
  of_u64_is = λ n few. refl;
  add_is = λ x y m n p q few. rw (p, q) (ground arith);
  sub_is = λ x y m n p q few le. rw (p, q) (ground arith);
}

first_enabled-least_example :
    let p = first_enabled 0x8 4 0 in
    NoneEnabled 0x8 0 p × (((p < 4) × (enabled 0x8 p ≡ true)) ⊎ (p ≡ 4))
first_enabled-least_example = first_enabled-least 0x8 4

watch-Shown_example :
    Shown Is 0
      (map second ((packets, 0) ∷ (packets, 3) ∷ []))
      (watch everything ((packets, 0) ∷ (packets, 3) ∷ []) double_start (pos 0))
unfolding total total_seconds
watch-Shown_example =
    watch-Shown everything Is integers-IsExact ((packets, 0) ∷ (packets, 3) ∷ []) double_start
      (pos 0) refl (omega arith)
