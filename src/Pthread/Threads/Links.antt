-- ===== src/Pthread/Threads/Links.antt =====
-- `init_rx_rings` of pthread/main.c: the connection of counting threads with receive threads.
use mathlib.Core.List.{append_assoc, append-nil}
use flo_watcher_dpdk.Common.{
  ℕ, zero, suc, ◌+◌, ◌≤◌, ◌<◌, ◌≡◌, ◌≢◌, refl, sym, ap, ◌∙◌, Bool, true, false, List, [], ◌∷◌, ◌++◌,
  Array, update, arith, ltb, leb, length, ◌==◌, if◌then◌else◌, Bool-cases, inl, inr,
}
use flo_watcher_dpdk.Outcome.{Ensures, mono-Ensures}
use flo_watcher_dpdk.Pthread.Threads.{ThreadRxConf, ThreadTxConf, init_rx_rings}

-- the counting threads from `n` on, `rounds` in all, that belong to receive thread `rx`
unfoldable pub rings_of : (ℕ → ℕ) → ℕ → ℕ → ℕ → List ℕ
rings_of thread rx zero n = []
rings_of thread rx (suc rounds) n =
    if thread n == rx
    then n ∷ rings_of thread rx rounds (n + 1)
    else rings_of thread rx rounds (n + 1)

-- what the rounds from counting thread `n` on leave: each receive thread has got the rings of the
-- counting threads that name it, and each counting thread the ring that was created for it
pub record Links (thread : ℕ → ℕ) (rounds n : ℕ) (s r : Array ThreadRxConf × Array ThreadTxConf)
    : Type 0 where
  pub rings : (rx : ℕ) → (r.0 rx).rings ≡ (s.0 rx).rings ++ rings_of thread rx rounds n
  pub reads :
      (i : ℕ)
      → (r.1 i).ring
        ≡ (if ltb i n then (s.1 i).ring else if ltb i (n + rounds) then i else (s.1 i).ring)
  pub names : (i : ℕ) → (r.1 i).thread_id ≡ thread i

-- one round
link : ℕ → Array ThreadRxConf × Array ThreadTxConf → Array ThreadRxConf × Array ThreadTxConf
link n (rx_thread, tx_thread) =
    let rx = (tx_thread n).thread_id in
    let conf = rx_thread rx in
    (
      update rx_thread rx (record conf { rings = conf.rings ++ n ∷ [] }),
      update tx_thread n (record (tx_thread n) { ring = n }),
    )

link-Links :
    (thread : ℕ → ℕ) (rounds n : ℕ) (s r : Array ThreadRxConf × Array ThreadTxConf)
    → (s.1 n).thread_id ≡ thread n
    → Links thread rounds (n + 1) (link n s) r
    → Links thread (suc rounds) n s r
unfolding link rings_of update
link-Links thread rounds n (rx_thread, tx_thread) r name h =
    let rx = (tx_thread n).thread_id in
    let conf = rx_thread rx in
    record {
      rings = λ j. h.rings j ∙ elim (Bool-cases (j == rx)) [
        | inl own ↦
            let e : j ≡ rx = ground arith in
            let flip : (thread n == j) ≡ true = ground arith in
            rw (own, flip)
              (append_assoc conf.rings (n ∷ []) (rings_of thread j rounds (n + 1))
                ∙ ap (λ i. (rx_thread i).rings ++ (n ∷ rings_of thread j rounds (n + 1))) (sym e))
        | inr other ↦ let flip : (thread n == j) ≡ false = ground arith in rw (other, flip) refl
      ];
      reads = λ i. h.reads i ∙ elim (Bool-cases (i == n)) [
        | inl own ↦ rw own (ground arith)
        | inr other ↦ rw other (ground arith)
      ];
      names = h.names;
    }

link-names :
    (thread : ℕ → ℕ) (n : ℕ) (s : Array ThreadRxConf × Array ThreadTxConf)
    → ((i : ℕ) → (s.1 i).thread_id ≡ thread i)
    → (i : ℕ) → ((link n s).1 i).thread_id ≡ thread i
unfolding link update
link-names thread n s names i = elim (Bool-cases (i == n)) [
  | inl own ↦ let e : i ≡ n = ground arith in rw own (rw e (names n))
  | inr other ↦ rw other (names i)
]

-- The rounds that are left, where they end without an error, link what they are to link.
pub init_rx_rings-Links :
    (created : ℕ → Bool) (max_lcore n_tx_thread : ℕ) (thread : ℕ → ℕ) (rounds n : ℕ)
    (s : Array ThreadRxConf × Array ThreadTxConf)
    → ((i : ℕ) → (s.1 i).thread_id ≡ thread i)
    → Ensures (Links thread rounds n s) (init_rx_rings created max_lcore n_tx_thread rounds n s)
unfolding init_rx_rings rings_of link
init_rx_rings-Links created max_lcore n_tx_thread thread zero n s names = record {
  rings = λ rx. sym (append-nil (s.0 rx).rings);
  reads = λ i. ground arith;
  names = names;
}
init_rx_rings-Links created max_lcore n_tx_thread thread (suc rounds) n s names =
    elim (Bool-cases (ltb n_tx_thread (s.1 n).thread_id)) [
      | inl beyond ↦ rw beyond tt
      | inr known ↦ elim (Bool-cases (created n)) [
        | inr refused ↦ rw (known, refused) tt
        | inl given ↦ elim (Bool-cases (leb max_lcore (length (s.0 (s.1 n).thread_id).rings))) [
          | inl full ↦ rw (known, given, full) tt
          | inr free ↦
              rw (known, given, free)
                (mono-Ensures (Links thread rounds (n + 1) (link n s))
                  (Links thread (suc rounds) n s)
                  (init_rx_rings created max_lcore n_tx_thread rounds (n + 1) (link n s))
                  (init_rx_rings-Links created max_lcore n_tx_thread thread rounds (n + 1)
                    (link n s) (link-names thread n s names))
                  (λ r. link-Links thread rounds n s r (names n)))
        ]
      ]
    ]

-- the first ring of a receive thread is that of the first counting thread which names it
pub rings_of-first :
    (thread : ℕ → ℕ) (rx rounds n i : ℕ) (rest : List ℕ)
    → rings_of thread rx rounds n ≡ i ∷ rest
    → (n ≤ i) × (i < n + rounds) × (thread i ≡ rx) × ((j : ℕ) → n ≤ j → j < i → thread j ≢ rx)
unfolding rings_of
rings_of-first thread rx zero n i rest e = absurd (ground arith)
rings_of-first thread rx (suc rounds) n i rest e = elim (Bool-cases (thread n == rx)) [
  | inl own ↦
      let e' = rw own at e in
      let same : n ≡ i = ground arith in
      (omega arith, omega arith, ground arith, λ j le lt. absurd (omega arith))
  | inr other ↦
      let e' = rw other at e in
      let (low, high, names, before) = rings_of-first thread rx rounds (n + 1) i rest e' in
      (
        omega arith,
        omega arith,
        names,
        λ j le lt. elim (Bool-cases (n == j)) [
          | inl here ↦ let same : n ≡ j = ground arith in ground arith
          | inr later ↦ let above : n + 1 ≤ j = ground arith in before j above lt
        ],
      )
]

-- a receive thread that is named has a ring
pub rings_of-some :
    (thread : ℕ → ℕ) (rx rounds n i : ℕ)
    → n ≤ i
    → i < n + rounds
    → thread i ≡ rx
    → (m : ℕ) × (rest : List ℕ) × (rings_of thread rx rounds n ≡ m ∷ rest)
unfolding rings_of
rings_of-some thread rx zero n i low high e = absurd (omega arith)
rings_of-some thread rx (suc rounds) n i low high e = elim (Bool-cases (thread n == rx)) [
  | inl own ↦ rw own (n, rings_of thread rx rounds (n + 1), refl)
  | inr other ↦
      let above : n + 1 ≤ i = ground arith in
      rw other (rings_of-some thread rx rounds (n + 1) i above (omega arith) e)
]
