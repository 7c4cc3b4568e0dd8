-- ===== src/Pthread/Pipeline/Order.antt =====
-- The order of the packets and the buffers of pthread/main.c, for every interleaving of the receive
-- thread and the counting thread.
use mathlib.Core.List.{append_assoc, append-nil}
use flo_watcher_dpdk.Common.{
  ℕ, zero, suc, ◌+◌, ◌%◌, ◌<◌, ◌≡◌, refl, sym, ap, ◌∙◌, List, [], ◌∷◌, ◌++◌, length, length-append,
  take, count, count-append, arith, Array, update, ◌==◌, if◌then◌else◌, u64_mod,
}
use flo_watcher_dpdk.Buckets.{addrs}
use flo_watcher_dpdk.Buckets.Addrs.{count-addrs}
use flo_watcher_dpdk.Double.{Arithmetic}
use flo_watcher_dpdk.Dpdk.{Mbuf}
use flo_watcher_dpdk.Pthread.DoubleHash.{PktCount}
use flo_watcher_dpdk.Pthread.Pipeline.{
  State, Event, receive, serve, Setting, lcore_main_rx, count_loop, count_burst, step, run, served,
  accepted,
}
use flo_watcher_dpdk.Ring.{Ring, IsFifo}

take-nil : (n : ℕ) → take {A = Mbuf} n [] ≡ []
take-nil zero = refl
take-nil (suc n) = refl

module _ {R F : Type 0} ⦃fp : Arithmetic F⦄ (ops : Ring R) (k : Setting) where
  pub count_burst-ring :
      (bufs : List Mbuf) (s : State R F) → (count_burst ops k bufs s).ring ≡ s.ring
  unfolding count_burst
  count_burst-ring [] s = refl
  count_burst-ring (m ∷ ms) s = refl

  module _ (fifo : IsFifo ops) where
    receive-contents :
        (bufs : List Mbuf) (s : State R F)
        → ops.contents (lcore_main_rx ops k bufs s).ring
          ≡ ops.contents s.ring ++ take (ops.enqueue_burst s.ring bufs).0 bufs
    unfolding lcore_main_rx
    receive-contents [] s = sym (
        ap (λ t. ops.contents s.ring ++ t) (take-nil (ops.enqueue_burst s.ring []).0)
        ∙ append-nil (ops.contents s.ring))
    receive-contents (m ∷ ms) s = (fifo.enqueue_takes s.ring (m ∷ ms)).1

    -- Packets leave the ring in the order in which they came in: what was in the ring and what it took
    -- in is what was taken out, followed by what is in it.
    pub served-order :
        (es : List Event) (s : State R F)
        → ops.contents s.ring ++ accepted ops k es s
          ≡ served ops k es s ++ ops.contents (run ops k es s).ring
    unfolding run served accepted step
    served-order [] s = append-nil (ops.contents s.ring)
    served-order (receive bufs ∷ es) s =
        sym (append_assoc (ops.contents s.ring) (take (ops.enqueue_burst s.ring bufs).0 bufs) _)
        ∙ ap (λ t. t ++ accepted ops k es (lcore_main_rx ops k bufs s))
            (sym (receive-contents bufs s))
        ∙ served-order es (lcore_main_rx ops k bufs s)
    served-order (serve ∷ es) s =
        let taken = ops.dequeue_burst s.ring k.burst_size in
        let s0 = record s { ring = taken.1 } in
        let s1 = count_burst ops k taken.0 s0 in
        let more = accepted ops k es s1 in
        let left = ops.contents (run ops k es s1).ring in
        ap (λ t. t ++ more) (fifo.dequeue_gives s.ring k.burst_size).1
        ∙ append_assoc taken.0 (ops.contents taken.1) more
        ∙ ap (λ t. taken.0 ++ t)
            (ap (λ r. ops.contents r ++ more) (sym (count_burst-ring taken.0 s0))
              ∙ served-order es s1)
        ∙ sym (append_assoc taken.0 (served ops k es s1) left)

  count_loop-freed :
      (a global : ℕ) (ms : List Mbuf) (s : Array (PktCount F) × List ℕ)
      → count a (count_loop ops k global ms s).1 ≡ count a s.1 + count a (addrs ms)
  unfolding count_loop addrs count
  count_loop-freed a global [] s = omega arith
  count_loop-freed a global (m ∷ ms) s = omega (
    arith,
    count_loop-freed a global ms (_, s.1 ++ m.addr ∷ []),
    count-append a s.1 (m.addr ∷ []),
  )

  pub count_burst-freed :
      (a : ℕ) (bufs : List Mbuf) (s : State R F)
      → count a (count_burst ops k bufs s).freed ≡ count a s.freed + count a (addrs bufs)
  unfolding count_burst addrs count
  count_burst-freed a [] s = omega arith
  count_burst-freed a (m ∷ ms) s = count_loop-freed a _ (m ∷ ms) (s.pkt_ctr, s.freed)

  lcore_main_rx-same :
      (bufs : List Mbuf) (s : State R F)
      → ((lcore_main_rx ops k bufs s).freed ≡ s.freed)
        × ((lcore_main_rx ops k bufs s).g_ctr ≡ s.g_ctr)
        × ((lcore_main_rx ops k bufs s).pkt_ctr ≡ s.pkt_ctr)
  unfolding lcore_main_rx
  lcore_main_rx-same [] s = (refl, refl, refl)
  lcore_main_rx-same (m ∷ ms) s = (refl, refl, refl)

  -- Each packet that is taken out is freed once.
  served-freed :
      (a : ℕ) (es : List Event) (s : State R F)
      → count a (run ops k es s).freed ≡ count a s.freed + count a (addrs (served ops k es s))
  unfolding run served step addrs count
  served-freed a [] s = omega arith
  served-freed a (receive bufs ∷ es) s =
      let s1 = lcore_main_rx ops k bufs s in
      served-freed a es s1
      ∙ ap (λ t. count a t + count a (addrs (served ops k es s1))) (lcore_main_rx-same bufs s).0
  served-freed a (serve ∷ es) s =
      let taken = ops.dequeue_burst s.ring k.burst_size in
      let s1 = count_burst ops k taken.0 (record s { ring = taken.1 }) in
      omega (
        arith,
        served-freed a es s1,
        count_burst-freed a taken.0 (record s { ring = taken.1 }),
        count-addrs a taken.0 (served ops k es s1),
      )

  -- No buffer is freed twice or kept by the counting thread: the buffers that are freed or still in
  -- the ring are those that were before and those that the ring took in. What a full ring does not
  -- take is therefore never freed.
  buffers :
      (fifo : IsFifo ops) (a : ℕ) (es : List Event) (s : State R F)
      → count a (run ops k es s).freed + count a (addrs (ops.contents (run ops k es s).ring))
        ≡ count a s.freed
          + count a (addrs (ops.contents s.ring))
          + count a (addrs (accepted ops k es s))
  buffers fifo a es s = omega (
    arith,
    served-freed a es s,
    ap (λ t. count a (addrs t)) (served-order fifo es s),
    count-addrs a (ops.contents s.ring) (accepted ops k es s),
    count-addrs a (served ops k es s) (ops.contents (run ops k es s).ring),
  )

  pub count_burst-g_ctr :
      (j : ℕ) (bufs : List Mbuf) (s : State R F)
      → s.g_ctr j < u64_mod
      → (count_burst ops k bufs s).g_ctr j
        ≡ (if j == k.q then (s.g_ctr j + length bufs) % u64_mod else s.g_ctr j)
  unfolding count_burst update
  count_burst-g_ctr j [] s h = ground arith
  count_burst-g_ctr j (m ∷ ms) s h = ground arith

  -- The counter of the counting thread is the number of packets that it took out, modulo 2 ^ 64, and
  -- the counters of the other threads stay as they are.
  served-g_ctr :
      (j : ℕ) (es : List Event) (s : State R F)
      → s.g_ctr j < u64_mod
      → (run ops k es s).g_ctr j
        ≡ (if j == k.q then (s.g_ctr j + length (served ops k es s)) % u64_mod else s.g_ctr j)
  unfolding run served step
  served-g_ctr j [] s h = ground arith
  served-g_ctr j (receive bufs ∷ es) s h =
      let s1 = lcore_main_rx ops k bufs s in
      let same = ap (λ g. g j) (lcore_main_rx-same bufs s).1 in
      ground (arith, same, served-g_ctr j es s1)
  served-g_ctr j (serve ∷ es) s h =
      let taken = ops.dequeue_burst s.ring k.burst_size in
      let s0 = record s { ring = taken.1 } in
      let s1 = count_burst ops k taken.0 s0 in
      ground (
        arith,
        count_burst-g_ctr j taken.0 s0,
        served-g_ctr j es s1,
        length-append taken.0 (served ops k es s1),
      )
