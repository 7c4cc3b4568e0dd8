-- ===== src/Lthread/Threads/Links.antt =====
-- `init_rx_rings` of lthread/main.c: a counting thread waits on the condition variable that its
-- receive thread signals for its ring.
use flo_watcher_dpdk.Common.{
  ℕ, zero, suc, ◌+◌, ◌≤◌, ◌<◌, ◌≡◌, refl, ◌∙◌, Bool, true, false, some, List, [], ◌∷◌, ◌++◌, length,
  length-append, get_elem?, Array, update, arith, ltb, leb, ==_refl, ne→==-false,
}
use native.Mathlib.Decide.{ℕ_discrete}
use flo_watcher_dpdk.Lthread.Threads.{ThreadTxConf, init_rx_rings}
use flo_watcher_dpdk.Outcome.{ok}
use flo_watcher_dpdk.Pthread.Threads.{ThreadRxConf}

-- the thread's ring stands in the rings of a receive thread where its condition variable stands
abbrev pub Linked : Array ThreadRxConf × Array ThreadTxConf → ℕ → Type 0
Linked s i =
    let conf = s.1 i in
    (conf.ring ≡ i)
    × (conf.ready.0 ≡ conf.thread_id)
    × (get_elem? (s.0 conf.ready.0).rings conf.ready.1 ≡ some conf.ring)

get_elem?-append :
    (xs : List ℕ) (i x y : ℕ) → get_elem? xs i ≡ some x → get_elem? (xs ++ y ∷ []) i ≡ some x
get_elem?-append [] i x y e = cc
get_elem?-append (z ∷ xs) zero x y e = e
get_elem?-append (z ∷ xs) (suc i) x y e = get_elem?-append xs i x y e

get_elem?-last : (xs : List ℕ) (y : ℕ) → get_elem? (xs ++ y ∷ []) (length xs) ≡ some y
get_elem?-last [] y = refl
get_elem?-last (z ∷ xs) y = get_elem?-last xs y

module _ (s : Array ThreadRxConf × Array ThreadTxConf) (n : ℕ) where
  -- the tables after one round
  abbrev linked : Array ThreadRxConf × Array ThreadTxConf
  linked =
      let rx = (s.1 n).thread_id in
      let conf = s.0 rx in
      (
        update s.0 rx (record conf { rings = conf.rings ++ n ∷ [] }),
        update s.1 n (record (s.1 n) { ring = n; ready = (rx, length conf.rings) }),
      )

  -- a ring that a receive thread has stays where it is
  linked-keeps :
      (rx slot ring : ℕ)
      → get_elem? (s.0 rx).rings slot ≡ some ring
      → get_elem? (linked.0 rx).rings slot ≡ some ring
  unfolding update
  linked-keeps rx slot ring e = elim (ℕ_discrete rx (s.1 n).thread_id) [
    | yes own ↦
        let e' = rw own at e in
        rw (own, ==_refl (s.1 n).thread_id) (get_elem?-append _ slot ring n e')
    | no other ↦ rw (ne→==-false rx (s.1 n).thread_id other) e
  ]

  linked-Linked : ((i : ℕ) → i < n → Linked s i) → (i : ℕ) → i < n + 1 → Linked linked i
  unfolding update
  linked-Linked h i lt = elim (ℕ_discrete i n) [
    | yes last ↦
        rw (last, ==_refl n, ==_refl (s.1 n).thread_id)
          (refl, refl, get_elem?-last (s.0 (s.1 n).thread_id).rings n)
    | no before ↦
        let (own, rx, place) = h i (omega arith) in
        rw (ne→==-false i n before) (own, rx, linked-keeps (s.1 i).ready.0 (s.1 i).ready.1 _ place)
  ]

  linked-names : (i : ℕ) → (linked.1 i).thread_id ≡ (s.1 i).thread_id
  unfolding update
  linked-names i = elim (ℕ_discrete i n) [
    | yes last ↦ rw (last, ==_refl n) refl
    | no before ↦ rw (ne→==-false i n before) refl
  ]

  linked-length : (rx : ℕ) → length (linked.0 rx).rings ≤ length (s.0 rx).rings + 1
  unfolding update
  linked-length rx = elim (ℕ_discrete rx (s.1 n).thread_id) [
    | yes own ↦
        rw (own, ==_refl (s.1 n).thread_id)
          (omega (arith, length-append (s.0 (s.1 n).thread_id).rings (n ∷ [])))
    | no other ↦ rw (ne→==-false rx (s.1 n).thread_id other) (omega arith)
  ]

  linked-queues : (rx : ℕ) → (linked.0 rx).rx_queue_list ≡ (s.0 rx).rx_queue_list
  unfolding update
  linked-queues rx = elim (ℕ_discrete rx (s.1 n).thread_id) [
    | yes own ↦ rw (own, ==_refl (s.1 n).thread_id) refl
    | no other ↦ rw (ne→==-false rx (s.1 n).thread_id other) refl
  ]

module _ (created : ℕ → Bool) (max_lcore n_tx_thread : ℕ) (given : (i : ℕ) → created i ≡ true) where
  rings-Linked :
      (rounds n : ℕ) (s : Array ThreadRxConf × Array ThreadTxConf)
      → ((i : ℕ) → (s.1 i).thread_id ≤ n_tx_thread)
      → ((rx : ℕ) → length (s.0 rx).rings + rounds ≤ max_lcore)
      → ((i : ℕ) → i < n → Linked s i)
      → (r : Array ThreadRxConf × Array ThreadTxConf) × (init_rx_rings created max_lcore n_tx_thread
            rounds n s
          ≡ ok r)
        × ((i : ℕ) → i < n + rounds → Linked r i)
        × ((rx : ℕ) → (r.0 rx).rx_queue_list ≡ (s.0 rx).rx_queue_list)
  unfolding init_rx_rings
  rings-Linked zero n s known fit h = (s, refl, λ i lt. h i (omega arith), λ rx. refl)
  rings-Linked (suc rounds) n s known fit h =
      let defined : ltb n_tx_thread (s.1 n).thread_id ≡ false = ground (arith, known n) in
      let room : leb max_lcore (length (s.0 (s.1 n).thread_id).rings) ≡ false =
        ground (arith, fit (s.1 n).thread_id) in
      let (r, run, all, queues) =
        rings-Linked rounds (n + 1) (linked s n) (λ i. rw (linked-names s n i) (known i))
          (λ rx. omega (arith, linked-length s n rx, fit rx)) (linked-Linked s n h) in
      (
        r,
        rw (defined, given n, room) run,
        λ i lt. all i (omega arith),
        λ rx. queues rx ∙ linked-queues s n rx,
      )

  -- Where every ring can be created, no counting thread names a receive thread above the number of
  -- counting threads, there are at most RTE_MAX_LCORE of these, and no receive thread has a ring
  -- before, `init_rx_rings` ends, and each counting thread has its ring and waits on the condition
  -- variable that the receive thread which it names has for this ring; the queues stay as they are.
  pub init_rx_rings-Linked :
      (s : Array ThreadRxConf × Array ThreadTxConf)
      → ((i : ℕ) → (s.1 i).thread_id ≤ n_tx_thread)
      → n_tx_thread ≤ max_lcore
      → ((rx : ℕ) → (s.0 rx).rings ≡ [])
      → (r : Array ThreadRxConf × Array ThreadTxConf) × (init_rx_rings created max_lcore n_tx_thread
            n_tx_thread 0 s
          ≡ ok r)
        × ((i : ℕ) → i < n_tx_thread → Linked r i)
        × ((rx : ℕ) → (r.0 rx).rx_queue_list ≡ (s.0 rx).rx_queue_list)
  init_rx_rings-Linked s known few empty =
      let (r, run, all, queues) =
        rings-Linked n_tx_thread 0 s known (λ rx. rw (empty rx) (omega arith))
          (λ i lt. absurd (omega arith)) in
      (r, run, λ i lt. all i (omega arith), queues)
