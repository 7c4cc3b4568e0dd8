-- ===== src/Pthread/Chains/System/Silent.antt =====
-- The rings that stay empty in the LINKED_LIST and HASH_LIST builds of pthread/main.c when all threads
-- run.
use flo_watcher_dpdk.Common.{
  ℕ, ◌<◌, ◌≡◌, refl, sym, ap, ◌∙◌, ◌⊎◌, inl, inr, List, [], ◌∷◌, Array, arith, update, ◌==◌, ltb,
  Bool-cases,
}
use flo_watcher_dpdk.Dpdk.{Mbuf}
use flo_watcher_dpdk.Pthread.Chains.System.{fill, deal}
use flo_watcher_dpdk.Pthread.Startup.{Role, receives, counts, idle}
use flo_watcher_dpdk.Pthread.Startup.Wired.{Wired}
use flo_watcher_dpdk.Pthread.System.{Program}
use flo_watcher_dpdk.Pthread.System.Invariants.{Employed}
use flo_watcher_dpdk.Pthread.System.Quiet.{Fed, Wired-Fed, empty_ring}
use flo_watcher_dpdk.Pthread.Threads.{LcoreRxQueue}
use flo_watcher_dpdk.Ring.{Ring, IsFifo}

module _ {R : Type 0} (ops : Ring R) (k : Program) (fifo : IsFifo ops) (w : Wired k.setup) where
  -- the rings that no receive thread feeds are empty
  abbrev pub Silent : Array R → Type 0
  Silent rings = (n : ℕ) → ¬ Fed k.setup n → ops.contents (rings n) ≡ []

  fill-Silent :
      (i : ℕ) (bufs : List Mbuf) (rings : Array R)
      → i < k.setup.n_rx_thread
      → (qs : List ℕ) → (k.setup.rx_thread i).rings ≡ qs
      → Silent rings
      → Silent (fill ops k qs bufs rings)
  unfolding fill update
  fill-Silent i [] rings lt qs e silent = silent
  fill-Silent i (m ∷ bufs) rings lt [] e silent = silent
  fill-Silent i (m ∷ bufs) rings lt (n ∷ qs) e silent = λ j unfed. elim (Bool-cases (j == n)) [
    | inl own ↦
        let same : n ≡ j = ground arith in absurd (unfed (i, qs, lt, e ∙ ap (λ r. r ∷ qs) same))
    | inr other ↦ rw other (silent j unfed)
  ]

  pub deal-Silent :
      (role : Role) (deliver : LcoreRxQueue → List Mbuf) (rings : Array R)
      → Employed k.setup role
      → Silent rings
      → Silent (deal ops k role deliver rings).1
  unfolding deal update
  deal-Silent (receives i) deliver rings used silent =
      fill-Silent i _ rings used (k.setup.rx_thread i).rings refl silent
  deal-Silent (counts i) deliver rings used silent = λ j unfed.
      let n = (k.setup.tx_thread i).ring in
      elim (Bool-cases (j == n)) [
        | inl own ↦
            let same : j ≡ n = ground arith in
            let none = ap (λ j. ops.contents (rings j)) (sym same) ∙ silent j unfed in
            rw own (empty_ring ops fifo (rings n) k.setup.config.burst_size none).1
        | inr other ↦ rw other (silent j unfed)
      ]
  deal-Silent idle deliver rings used silent = silent

  -- the counting threads that do not name a receive thread in use find nothing
  pub fed_or_nothing :
      (i : ℕ) (rings : Array R)
      → i < k.setup.n_tx_thread
      → Silent rings
      → let taken =
          (ops.dequeue_burst (rings (k.setup.tx_thread i).ring) k.setup.config.burst_size).0 in
        (((k.setup.tx_thread i).thread_id < k.setup.n_rx_thread) ⊎ (taken ≡ []))
  fed_or_nothing i rings used silent =
      let n = (k.setup.tx_thread i).ring in
      elim (Bool-cases (ltb (k.setup.tx_thread i).thread_id k.setup.n_rx_thread)) [
        | inl below ↦ inl (ground arith)
        | inr above ↦
            let unfed : ¬ Fed k.setup n = λ fed.
              let (_, below, _) = Wired-Fed k.setup w n fed in
              let own : n ≡ i = w.reads i used in
              let own_thread = ap (λ m. (k.setup.tx_thread m).thread_id) own in ground arith in
            inr (empty_ring ops fifo (rings n) k.setup.config.burst_size (silent n unfed)).0
      ]
