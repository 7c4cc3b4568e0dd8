-- ===== src/RunToCompletion/Timer.antt =====
-- `timer_cb` of run_to_completion/main.c, which DPDK calls once a second, in the three builds, and
-- the DOUBLE_HASH program with its calls.
use mathlib.Core.Path.{subst}
use flo_watcher_dpdk.Common.{
  ℕ, ◌+◌, ◌<◌, ◌≡◌, Option, none, some, List, [], ◌∷◌, map, arith, if◌then◌else◌, sum_below,
}
use flo_watcher_dpdk.Buckets.{total}
use flo_watcher_dpdk.Double.{Arithmetic}
use flo_watcher_dpdk.Dpdk.{Mbuf}
use flo_watcher_dpdk.RunToCompletion.{Build, rx_rings}
use flo_watcher_dpdk.RunToCompletion.DoubleHash
use flo_watcher_dpdk.RunToCompletion.DoubleHash.{double_hash}
use flo_watcher_dpdk.RunToCompletion.DoubleHash.Accounts.{double_hash-re}
use flo_watcher_dpdk.RunToCompletion.HashList
use flo_watcher_dpdk.RunToCompletion.LinkedList
use flo_watcher_dpdk.Statistics.{Line, line}
use flo_watcher_dpdk.Statistics.Rates.{exact, IsExact, Shown, line-Tells}

-- the flow of which the inter-packet gap is shown
abbrev pub shown_flow : ℕ
shown_flow = 65246

module _ {F : Type 0} ⦃fp : Arithmetic F⦄ (b : Build) where
  -- DOUBLE_HASH
  unfoldable pub timer_cb : ℕ → DoubleHash.State F → F → Line F × F
  timer_cb imissed s =
      line s.re rx_rings imissed (if b.ipg then some (s.pkt_ctr shown_flow).avg0 else none) none

  -- HASH_LIST
  unfoldable pub timer_cb_hash_list : ℕ → HashList.State F → F → Line F × F
  timer_cb_hash_list imissed s =
      let c = s.pkt_ctr shown_flow in
      line s.re rx_rings imissed (if b.ipg then some c.avg0 else none)
        (if b.ipg then some c.std_dev0 else none)

  -- LINKED_LIST: `flows[i]` points to the first entry of the chain, which is there from the start
  unfoldable pub first_avg : LinkedList.Chain F → Option F
  first_avg [] = none
  first_avg (f ∷ rest) = some f.avg

  unfoldable pub timer_cb_linked_list : ℕ → LinkedList.State F → F → Line F × F
  timer_cb_linked_list imissed s =
      line s.re rx_rings imissed (if b.ipg then first_avg (s.flows shown_flow) else none) none

  -- the lines of a run: for each second what arrives for queue 0 and what the NIC has dropped so far
  unfoldable pub watch : List (List (List Mbuf) × ℕ) → DoubleHash.State F → F → List (Line F)
  watch [] s old = []
  watch ((bursts, imissed) ∷ seconds) s old =
      let s' = double_hash b 0 bursts s in
      let printed = timer_cb imissed s' old in printed.0 ∷ watch seconds s' printed.1

-- the packets of a second and the drops
abbrev pub second : List (List Mbuf) × ℕ → ℕ × ℕ
second (bursts, imissed) = (total bursts, imissed)

-- the packets of all seconds
unfoldable pub total_seconds : List (List (List Mbuf) × ℕ) → ℕ
total_seconds [] = 0
total_seconds ((bursts, imissed) ∷ seconds) = total bursts + total_seconds seconds

module _ {F : Type 0} ⦃fp : Arithmetic F⦄ (b : Build) (Is : F → ℕ → Type 0)
    (laws : IsExact fp Is) where
  -- Second by second, `timer_cb` prints the number of packets so far and, as the rate, those of this
  -- second divided by a million, where `double` is exact on whole numbers below 2 ^ 53, the run has
  -- no more packets with those before, and `old` is the number of packets before.
  pub watch-Shown :
      (seconds : List (List (List Mbuf) × ℕ)) (s : DoubleHash.State F) (old : F)
      → Is old (s.re 0)
      → s.re 0 + total_seconds seconds < exact
      → Shown Is (s.re 0) (map second seconds) (watch b seconds s old)
  unfolding watch timer_cb total_seconds sum_below
  watch-Shown [] s old h few = tt
  watch-Shown ((bursts, imissed) ∷ seconds) s old h few =
      let s' = double_hash b 0 bursts s in
      let now : s'.re 0 ≡ s.re 0 + total bursts =
        ground (arith, double_hash-re b 0 0 bursts s (omega arith)) in
      let old' = (timer_cb b imissed s' old).1 in
      let (tells, next) =
        line-Tells Is laws s'.re 1 (s.re 0) (s.re 0 + total bursts) imissed
          (if b.ipg then some (s'.pkt_ctr shown_flow).avg0 else none) none old (omega (arith, now))
          (omega arith) (omega arith) h in
      (
        tells,
        subst (λ n. Shown Is n (map second seconds) (watch b seconds s' old')) now
            (watch-Shown seconds s' old' (rw now next) (omega (arith, now))),
      )
