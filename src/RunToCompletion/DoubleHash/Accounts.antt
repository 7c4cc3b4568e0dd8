-- ===== src/RunToCompletion/DoubleHash/Accounts.antt =====
-- The DOUBLE_HASH build: the report of `handler`, the queue counters, the buffers that are given
-- back, and the flow that the table cannot tell from a free slot.
use flo_watcher_dpdk.Common.{
  ℕ, zero, suc, ◌+◌, ◌*◌, ◌%◌, ◌<◌, ◌≡◌, refl, ◌≢◌, true, List, [], ◌∷◌, ◌++◌, arith, All, count,
  length, u32_mod, u64_mod, Array, update, sum_below, if◌then◌else◌, ◌==◌, Bool-cases, inl, inr,
  count-append,
}
use flo_watcher_dpdk.Common.History.{without}
use flo_watcher_dpdk.Double.{Arithmetic}
use flo_watcher_dpdk.Dpdk.{Mbuf}
use flo_watcher_dpdk.RunToCompletion.{Build, flow_num}
use flo_watcher_dpdk.Buckets.{after_all, addrs, total}
use flo_watcher_dpdk.RunToCompletion.Arrivals.{highs, MarkedBurst}
use flo_watcher_dpdk.RunToCompletion.DoubleHash.{
  PktCount, State, free_all, packet, count_loop, burst, double_hash, init_table, miscounted,
}
use flo_watcher_dpdk.RunToCompletion.DoubleHash.Counting.{Counted}
use flo_watcher_dpdk.RunToCompletion.DoubleHash.Runs.{double_hash-Counted}

-- the packets of bucket `l` that belong to neither of its two counted flows
unfoldable pub others : {F : Type 0} → List ℕ → Array (PktCount F) → ℕ → ℕ
others rs t l = length (without (t l).hi_f2 (without (t l).hi_f1 (highs l rs)))

miscounted-sum :
    {F : Type 0} (n : ℕ) (rs : List ℕ) (t : Array (PktCount F))
    → ((l : ℕ) → l < n → Counted (highs l rs) (t l))
    → miscounted n t ≡ sum_below n (λ l. others rs t l % u32_mod) % u64_mod
unfolding miscounted sum_below others
miscounted-sum zero rs t k = refl
miscounted-sum (suc n) rs t k =
    omega (arith, miscounted-sum n rs t (λ l h. k l (omega arith)), (k n (omega arith)).ctr2)

free_all-count :
    (a : ℕ) (ms : List Mbuf) (freed : List ℕ)
    → count a (free_all ms freed) ≡ count a freed + count a (addrs ms)
unfolding free_all addrs count
free_all-count a [] freed = omega arith
free_all-count a (m ∷ ms) freed =
    omega (arith, free_all-count a ms (freed ++ m.addr ∷ []), count-append a freed (m.addr ∷ []))

module _ {F : Type 0} ⦃fp : Arithmetic F⦄ (b : Build) where
  -- `handler` reports the packets of the uncounted flows of all buckets (each `ctr[2]` wraps at
  -- 2 ^ 32, their sum at 2 ^ 64).
  handler-miscounted :
      b.flow_level ≡ true
      → (q : ℕ) (bursts : List (List Mbuf)) (s : State F) (t : Array (PktCount F))
      → All MarkedBurst bursts
      → s.pkt_ctr ≡ init_table b flow_num t
      → miscounted flow_num (double_hash b q bursts s).pkt_ctr
        ≡ sum_below flow_num
            (λ l. others (after_all bursts []) (double_hash b q bursts s).pkt_ctr l % u32_mod)
          % u64_mod
  handler-miscounted flow q bursts s t h e =
      miscounted-sum flow_num (after_all bursts []) _
        (λ l lt. double_hash-Counted b flow q bursts s t l h e lt)

  count_loop-freed :
      (a global : ℕ) (ms : List Mbuf) (s : Array (PktCount F) × List ℕ)
      → count a (count_loop b global ms s).1 ≡ count a s.1 + count a (addrs ms)
  unfolding count_loop addrs count
  count_loop-freed a global [] s = omega arith
  count_loop-freed a global (m ∷ ms) s = omega (
    arith,
    count_loop-freed a global ms (_, s.1 ++ m.addr ∷ []),
    count-append a s.1 (m.addr ∷ []),
  )

  -- A burst gives each of its buffers back to the pool once, or twice if the per-packet code is
  -- compiled in: `rte_pktmbuf_free` is called in the counting loop and again in the loop behind it.
  burst-freed :
      (q a : ℕ) (ms : List Mbuf) (s : State F)
      → count a (burst b q ms s).freed
        ≡ count a s.freed + (if b.flow_level then 2 else 1) * count a (addrs ms)
  unfolding burst addrs count
  burst-freed q a [] s = ground arith
  burst-freed q a (m ∷ ms) s = elim (Bool-cases b.flow_level) [
    | inl on ↦ simp on (omega (arith, free_all-count, count_loop-freed))
    | inr off ↦ simp off (omega (arith, free_all-count))
  ]

  pub burst-re :
      (q j : ℕ) (ms : List Mbuf) (s : State F)
      → s.re j < u64_mod
      → (burst b q ms s).re j ≡ (if j == q then (s.re j + length ms) % u64_mod else s.re j)
  unfolding burst update
  burst-re q j [] s h = ground arith
  burst-re q j (m ∷ ms) s h = ground arith

  -- The queue counter is the number of packets that were received on the queue, modulo 2 ^ 64, and
  -- the counters of the other queues stay as they are.
  pub double_hash-re :
      (q j : ℕ) (bursts : List (List Mbuf)) (s : State F)
      → s.re j < u64_mod
      → (double_hash b q bursts s).re j
        ≡ (if j == q then (s.re j + total bursts) % u64_mod else s.re j)
  unfolding double_hash total
  double_hash-re q j [] s h = ground arith
  double_hash-re q j (ms ∷ rest) s h =
      ground (arith, burst-re q j ms s h, double_hash-re q j rest (burst b q ms s))

  -- A flow whose upper hash half is 0 does not mark its slot as taken: its packet is counted, and
  -- the next packet of the bucket takes the same slot and counts on, whatever flow it is of.
  packet_zero :
      (global next h : ℕ) (c : PktCount F)
      → c.hi_f1 ≡ 0
      → c.ctr0 + 2 < u32_mod
      → h ≢ 0
      → let c' = packet b next h (packet b global 0 c) in (c'.hi_f1 ≡ h) × (c'.ctr0 ≡ c.ctr0 + 2)
  unfolding packet
  packet_zero global next h c free small nz = rw free (ground arith)
