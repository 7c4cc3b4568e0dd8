-- ===== src/Lthread/Report/Totals.antt =====
-- The lines that `timer_cb` of lthread/main.c prints when all threads run: they show the packets of
-- the counting threads below the number of receive threads.
use mathlib.Core.Path.{subst}
use flo_watcher_dpdk.Common.{
  ℕ, ◌+◌, ◌%◌, ◌≤◌, ◌<◌, ◌≡◌, ◌≢◌, ap, ◌∙◌, Bool, true, leb, All, false, some, none, List, [], ◌∷◌,
  length, arith, sum_below, sum_below-change, sum_below_congr_lt, le-sum_below, u64_mod,
  if◌then◌else◌, ltb, ◌==◌, Bool-cases, inl, inr, update,
}
use flo_watcher_dpdk.Double.{Arithmetic}
use flo_watcher_dpdk.Dpdk.{Mbuf}
use flo_watcher_dpdk.Lthread.{burst_size, rx_rings}
use flo_watcher_dpdk.Lthread.Pipeline.{
  Cond, State, Event, Setting, receive, dequeue, wait, count_taken, receive_queue, at_dequeue,
  lthread_tx_per_ring, cond_wait, step, run, batch, update_2,
}
use flo_watcher_dpdk.Lthread.Report.{Source, timer_cb, watch}
use flo_watcher_dpdk.Ring.{Ring}
use flo_watcher_dpdk.Statistics.{EthStats, first_enabled}
use flo_watcher_dpdk.Statistics.Rates.{exact, IsExact, Shown, packets_of, line-Tells}

-- `re` has a place for the counting thread
abbrev pub Placed : Setting → Event → Type 0
Placed k (receive rx queueid bufs) = Unit
Placed k (dequeue rx w) = k.thread_id rx w < rx_rings
Placed k (wait rx w) = Unit

-- whether the event is of a counting thread whose counter is shown
abbrev pub shown : Setting → Event → Bool
shown k (receive rx queueid bufs) = false
shown k (dequeue rx w) = ltb (k.thread_id rx w) k.n_rx_thread
shown k (wait rx w) = false

module _ {R C F : Type 0} ⦃fp : Arithmetic F⦄ (ops : Ring R) (cond : Cond C) (k : Setting) where
  -- the packets that the threads whose counters are shown take out of the rings
  unfoldable pub shown_packets : List Event → State R C F → ℕ
  shown_packets [] s = 0
  shown_packets (e ∷ es) s =
      (if shown k e then length (batch ops cond k e s) else 0)
      + shown_packets es (step ops cond k e s)

  -- the counters that are shown
  abbrev pub counted : State R C F → ℕ
  counted s = sum_below k.n_rx_thread s.re

  abbrev pub Small : State R C F → Type 0
  Small s = (j : ℕ) → s.re j < u64_mod

  count_taken-re :
      (rx w j : ℕ) (bufs : List Mbuf) (s : State R C F)
      → s.re j < u64_mod
      → (count_taken ops cond k rx w bufs s).re j
        ≡ (if j == k.thread_id rx w then (s.re j + length bufs) % u64_mod else s.re j)
  unfolding count_taken update
  count_taken-re rx w j [] s h = ground arith
  count_taken-re rx w j (m ∷ ms) s h = ground arith

  count_taken-small :
      (rx w j : ℕ) (bufs : List Mbuf) (s : State R C F)
      → s.re j < u64_mod
      → (count_taken ops cond k rx w bufs s).re j < u64_mod
  count_taken-small rx w j bufs s h = ground (arith, count_taken-re rx w j bufs s h)

  count_taken-counted :
      (rx w : ℕ) (bufs : List Mbuf) (s : State R C F)
      → Small s
      → counted s + (if ltb (k.thread_id rx w) k.n_rx_thread then length bufs else 0) < u64_mod
      → counted (count_taken ops cond k rx w bufs s)
        ≡ counted s + (if ltb (k.thread_id rx w) k.n_rx_thread then length bufs else 0)
  count_taken-counted rx w bufs s small few =
      let q = k.thread_id rx w in
      let s' = count_taken ops cond k rx w bufs s in
      let at = λ (j : ℕ). count_taken-re rx w j bufs s (small j) in
      let others : (j : ℕ) → j ≢ q → s'.re j ≡ s.re j = λ j d. ground (arith, at j) in
      let own : s'.re q ≡ (s.re q + length bufs) % u64_mod = ground (arith, at q) in
      elim (Bool-cases (ltb q k.n_rx_thread)) [
        | inl inside ↦
            let lt : q < k.n_rx_thread = ground arith in
            let few' = rw inside at few in
            rw inside (
              omega (
                arith,
                sum_below-change k.n_rx_thread q s.re s'.re lt others,
                le-sum_below k.n_rx_thread q s.re lt,
                own,
              ))
        | inr outside ↦
            let ge : k.n_rx_thread ≤ q = ground arith in
            rw outside (
              omega (
                arith,
                sum_below_congr_lt k.n_rx_thread s'.re s.re
                    (λ i lt. others i (λ e. absurd (omega arith))),
              ))
      ]

  step-Small : (e : Event) (s : State R C F) → Small s → Small (step ops cond k e s)
  unfolding step receive_queue cond_wait lthread_tx_per_ring
  step-Small (receive rx queueid bufs) s small j = small j
  step-Small (wait rx w) s small j = elim (Bool-cases (s.emptied rx w)) [
    | inl on ↦ rw on (small j)
    | inr off ↦ rw off (small j)
  ]
  step-Small (dequeue rx w) s small j =
      let taken = ops.dequeue_burst (s.rings rx w) burst_size in
      let s0 = record s { rings = update_2 s.rings rx w taken.1 } in
      elim (Bool-cases (at_dequeue ops cond k rx w s)) [
        | inl on ↦ rw on (count_taken-small rx w j taken.0 s0 (small j))
        | inr off ↦ rw off (small j)
      ]

  step-counted :
      (e : Event) (s : State R C F)
      → Small s
      → counted s + (if shown k e then length (batch ops cond k e s) else 0) < u64_mod
      → counted (step ops cond k e s)
        ≡ counted s + (if shown k e then length (batch ops cond k e s) else 0)
  unfolding step receive_queue cond_wait lthread_tx_per_ring batch
  step-counted (receive rx queueid bufs) s small few = omega arith
  step-counted (wait rx w) s small few = elim (Bool-cases (s.emptied rx w)) [
    | inl on ↦ rw on (omega arith)
    | inr off ↦ rw off (omega arith)
  ]
  step-counted (dequeue rx w) s small few =
      let taken = ops.dequeue_burst (s.rings rx w) burst_size in
      let s0 = record s { rings = update_2 s.rings rx w taken.1 } in
      elim (Bool-cases (at_dequeue ops cond k rx w s)) [
        | inl on ↦ let few' = rw on at few in rw on (count_taken-counted rx w taken.0 s0 small few')
        | inr off ↦ rw off (ground arith)
      ]

  run-counted :
      (es : List Event) (s : State R C F)
      → Small s
      → counted s + shown_packets es s < u64_mod
      → (counted (run ops cond k es s) ≡ counted s + shown_packets es s)
        × Small (run ops cond k es s)
  unfolding run shown_packets
  run-counted [] s small few = (omega arith, small)
  run-counted (e ∷ es) s small few =
      let here = step-counted e s small (omega arith) in
      let (later, small') =
        run-counted es (step ops cond k e s) (step-Small e s small) (omega (arith, here)) in
      (omega (arith, here, later), small')

  module _ (known : Source) where
    -- for each second the packets whose counters are shown, and those that the first enabled port has
    -- dropped so far
    unfoldable pub seconds_of : List (List Event × (ℕ → EthStats)) → State R C F → List (ℕ × ℕ)
    seconds_of [] s = []
    seconds_of ((es, stats) ∷ seconds) s =
        let port = first_enabled known.enabled_port_mask known.nb_ports 0 in
        (shown_packets es s, (stats port).imissed) ∷ seconds_of seconds (run ops cond k es s)

    -- The total that `timer_cb` prints second by second is not that of all packets: it has the packets
    -- that were taken out of the rings by the counting threads whose number is below the number of
    -- receive threads, and the rate is that of these packets in the second, divided by a million.
    -- `double` is exact on whole numbers below 2 ^ 53, the run has no more packets with those before,
    -- `old` is the number of packets before, and there are at most RX_RINGS receive threads and counting
    -- threads with numbers below RX_RINGS.
    pub watch-Shown_lthread :
        (Is : F → ℕ → Type 0) (laws : IsExact fp Is) (seconds : List (List Event × (ℕ → EthStats)))
        (s : State R C F) (old : F)
        → known.n_rx_thread ≡ k.n_rx_thread
        → k.n_rx_thread ≤ rx_rings
        → All (λ second. All (Placed k) second.0) seconds
        → Small s
        → Is old (counted s)
        → counted s + packets_of (seconds_of seconds s) < exact
        → Shown Is (counted s) (seconds_of seconds s) (watch ops cond k known seconds s old)
    unfolding watch seconds_of packets_of timer_cb
    watch-Shown_lthread Is laws [] s old e room places small h few = tt
    watch-Shown_lthread Is laws ((es, stats) ∷ seconds) s old e room places small h few =
        let s' = run ops cond k es s in
        let port = first_enabled known.enabled_port_mask known.nb_ports 0 in
        let c = s'.pkt_ctr 65246 in
        let (now, small') = run-counted es s small (omega arith) in
        let old' = (timer_cb k.macros.ipg (record known { stats = stats }) s' old).1 in
        let (tells, next) =
          line-Tells Is laws s'.re known.n_rx_thread (counted s) (counted s + shown_packets es s)
            (stats port).imissed (if k.macros.ipg then some c.avg0 else none)
            (if k.macros.ipg then some c.std_dev0 else none) old
            (ap (λ n. sum_below n s'.re) e ∙ now) (omega arith) (omega arith) h in
        let fits : leb known.n_rx_thread rx_rings ≡ true = ground (arith, e, room) in
        rw fits (
          tells,
          subst (λ n. Shown Is n (seconds_of seconds s') (watch ops cond k known seconds s' old'))
              now
              (watch-Shown_lthread Is laws seconds s' old' e room places.1 small' (rw now next)
                (omega (arith, now))),
        )
