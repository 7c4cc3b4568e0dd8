-- ===== src/Pthread/System/Quiet.antt =====
-- The rings of pthread/main.c into which no receive thread puts packets, when all threads run.
use flo_watcher_dpdk.Common.{
  ℕ, ◌<◌, ◌≡◌, refl, sym, ap, ◌∙◌, ◌≢◌, List, [], ◌∷◌, ◌++◌, arith, update, ◌==◌, ltb, ◌⊎◌,
  Bool-cases, inl, inr,
}
use flo_watcher_dpdk.Double.{Arithmetic}
use flo_watcher_dpdk.Dpdk.{Mbuf}
use flo_watcher_dpdk.Outcome.{Ensures}
use flo_watcher_dpdk.Pthread.Pipeline.{step, lcore_main_rx}
use flo_watcher_dpdk.Pthread.Pipeline.Order.{count_burst-ring}
use flo_watcher_dpdk.Pthread.Startup.{Setup, Role, receives, counts, idle}
use flo_watcher_dpdk.Pthread.Startup.Wired.{Wired}
use flo_watcher_dpdk.Pthread.System.{State, Program, setting, pass_on, act}
use flo_watcher_dpdk.Pthread.System.Invariants.{counts-Ensures, Employed}
use flo_watcher_dpdk.Pthread.Threads.{LcoreRxQueue}
use flo_watcher_dpdk.Pthread.Threads.Links.{rings_of-first}
use flo_watcher_dpdk.Ring.{Ring, IsFifo}

-- a ring is fed if it is the first of a receive thread
abbrev pub Fed : Setup → ℕ → Type 0
Fed s n = (rx : ℕ) × (rest : List ℕ) × (rx < s.n_rx_thread) × ((s.rx_thread rx).rings ≡ n ∷ rest)

-- of the counting threads that name a receive thread in use, the first alone has a ring that is fed
pub Wired-Fed :
    (s : Setup)
    → Wired s
    → (n : ℕ) → Fed s n
    → (n < s.n_tx_thread)
      × ((s.tx_thread n).thread_id < s.n_rx_thread)
      × ((j : ℕ) → j < n → (s.tx_thread j).thread_id ≢ (s.tx_thread n).thread_id)
Wired-Fed s w n (rx, rest, used, e) =
    let (low, high, names, before) =
      rings_of-first (λ i. (s.tx_thread i).thread_id) rx s.n_tx_thread 0 n rest
        (sym (w.rings rx) ∙ e) in
    (omega arith, omega arith, λ j lt same. before j (omega arith) lt (same ∙ names))

-- a counting thread whose ring is empty finds nothing, and leaves it empty
pub empty_ring :
    {R : Type 0} (ops : Ring R)
    → IsFifo ops
    → (r : R) (n : ℕ) → ops.contents r ≡ []
    → ((ops.dequeue_burst r n).0 ≡ []) × (ops.contents (ops.dequeue_burst r n).1 ≡ [])
empty_ring ops fifo r n e = parts _ _ (sym (fifo.dequeue_gives r n).1 ∙ e)
  where
    parts : (xs ys : List Mbuf) → xs ++ ys ≡ [] → (xs ≡ []) × (ys ≡ [])
    parts [] ys e = (refl, e)
    parts (x ∷ xs) ys e = absurd (ground arith)

module _ {R F : Type 0} ⦃fp : Arithmetic F⦄ (ops : Ring R) (k : Program) (fifo : IsFifo ops)
    (w : Wired k.setup) where
  -- the rings that no receive thread feeds are empty
  abbrev pub Quiet : State R F → Type 0
  Quiet s = (n : ℕ) → ¬ Fed k.setup n → ops.contents (s.rings n) ≡ []

  pass_on-Quiet :
      (i : ℕ) (bufs : List Mbuf) (s : State R F)
      → i < k.setup.n_rx_thread
      → (rings : List ℕ) → (k.setup.rx_thread i).rings ≡ rings
      → Quiet s
      → Ensures Quiet (pass_on ops k rings bufs s)
  unfolding pass_on lcore_main_rx update
  pass_on-Quiet i [] s lt rings e quiet = quiet
  pass_on-Quiet i (m ∷ bufs) s lt [] e quiet = tt
  pass_on-Quiet i (m ∷ bufs) s lt (n ∷ rings) e quiet = λ j unfed. elim (Bool-cases (j == n)) [
    | inl own ↦
        let same : n ≡ j = ground arith in
        absurd (unfed (i, rings, lt, e ∙ ap (λ r. r ∷ rings) same))
    | inr other ↦ rw other (quiet j unfed)
  ]

  counts-Quiet :
      (i : ℕ) (deliver : LcoreRxQueue → List Mbuf) (s : State R F)
      → Quiet s
      → Ensures Quiet (act ops k (counts i) deliver s)
  unfolding act step update
  counts-Quiet i deliver s quiet = counts-Ensures ops k Quiet i deliver s (λ j unfed.
      let n = (k.setup.tx_thread i).ring in
      let taken = ops.dequeue_burst (s.rings n) k.setup.config.burst_size in
      elim (Bool-cases (j == n)) [
        | inl own ↦
            let same : j ≡ n = ground arith in
            let none = ap (λ j. ops.contents (s.rings j)) (sym same) ∙ quiet j unfed in
            rw own (
              ap ops.contents (count_burst-ring ops (setting k i) taken.0 _)
              ∙ (empty_ring ops fifo (s.rings n) k.setup.config.burst_size none).1)
        | inr other ↦ rw other (quiet j unfed)
      ])

  pub act-Quiet :
      (role : Role) (deliver : LcoreRxQueue → List Mbuf) (s : State R F)
      → Employed k.setup role
      → Quiet s
      → Ensures Quiet (act ops k role deliver s)
  unfolding act
  act-Quiet (receives i) deliver s used quiet =
      pass_on-Quiet i _ s used (k.setup.rx_thread i).rings refl quiet
  act-Quiet (counts i) deliver s used quiet = counts-Quiet i deliver s quiet
  act-Quiet idle deliver s used quiet = quiet

  -- the counting threads that do not name a receive thread in use find nothing
  pub fed_or_empty :
      (i : ℕ) (s : State R F)
      → i < k.setup.n_tx_thread
      → Quiet s
      → let taken =
          (ops.dequeue_burst (s.rings (k.setup.tx_thread i).ring) k.setup.config.burst_size).0 in
        (((k.setup.tx_thread i).thread_id < k.setup.n_rx_thread) ⊎ (taken ≡ []))
  fed_or_empty i s used quiet =
      let n = (k.setup.tx_thread i).ring in
      elim (Bool-cases (ltb (k.setup.tx_thread i).thread_id k.setup.n_rx_thread)) [
        | inl below ↦ inl (ground arith)
        | inr above ↦
            let unfed : ¬ Fed k.setup n = λ fed.
              let (_, below, _) = Wired-Fed k.setup w n fed in
              let own : n ≡ i = w.reads i used in
              let own_thread = ap (λ m. (k.setup.tx_thread m).thread_id) own in ground arith in
            inr (empty_ring ops fifo (s.rings n) k.setup.config.burst_size (quiet n unfed)).0
      ]
