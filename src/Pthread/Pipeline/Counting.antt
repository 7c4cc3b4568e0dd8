-- ===== src/Pthread/Pipeline/Counting.antt =====
-- What the counters of pthread/main.c stand for, for every interleaving of the receive thread and the
-- counting thread.
use flo_watcher_dpdk.Common.{
  ℕ, zero, suc, ◌<◌, ◌≡◌, refl, ◌≢◌, Bool, not, ◌&&◌, List, [], ◌∷◌, ◌++◌, arith, All, count, Array,
  update, ◌==◌, Bool-cases, inl, inr,
}
use flo_watcher_dpdk.Common.History.{earliest, without}
use flo_watcher_dpdk.Buckets.{marks, Marked, MarkedBurst, marks-Nonzero, after, after-All}
use flo_watcher_dpdk.Double.{Arithmetic}
use flo_watcher_dpdk.Dpdk.{Mbuf}
use flo_watcher_dpdk.Pthread.{flow_num}
use flo_watcher_dpdk.Pthread.DoubleHash.{PktCount, packet, reset, init_table}
use flo_watcher_dpdk.Pthread.Masks.{masked_low, masked_high}
use flo_watcher_dpdk.Pthread.Pipeline.{
  State, Event, receive, serve, Setting, lcore_main_rx, count_packet, count_loop, count_burst, step,
  run, served,
}
use flo_watcher_dpdk.Ring.{Ring}
use flo_watcher_dpdk.Slots.{Slots, arrive, Counted, arrive-Counted}

-- what a bucket counts
abbrev pub slots_of : {F : Type 0} → PktCount F → Slots
slots_of c = record { hi_f1 = c.hi_f1; hi_f2 = c.hi_f2; ctr0 = c.ctr0; ctr1 = c.ctr1 }

module _ {F : Type 0} ⦃fp : Arithmetic F⦄ where
  packet-arrive :
      (ipg : Bool) (global h : ℕ) (c : PktCount F)
      → slots_of (packet ipg global h c) ≡ arrive h (slots_of c)
  unfolding packet arrive
  packet-arrive ipg global h c = elim (Bool-cases (c.hi_f1 == 0)) [
    | inl free ↦ rw free refl
    | inr taken ↦ elim (Bool-cases ((c.hi_f2 == 0) && not (c.hi_f1 == h))) [
      | inl second ↦ rw (taken, second) refl
      | inr full ↦ elim (Bool-cases (c.hi_f1 == h)) [
        | inl own ↦ rw (taken, full, own) refl
        | inr other ↦ elim (Bool-cases (c.hi_f2 == h)) [
          | inl next ↦ rw (taken, full, other, next) refl
          | inr third ↦ rw (taken, full, other, third) refl
        ]
      ]
    ]
  ]

  reset-Counted : (ipg : Bool) (c : PktCount F) → Counted [] (slots_of (reset ipg c))
  unfolding reset count earliest without
  reset-Counted ipg c = elim (Bool-cases ipg) [
    | inl on ↦ rw on (ground arith)
    | inr off ↦ rw off (ground arith)
  ]

  pub init_table-Counted :
      (ipg : Bool) (n : ℕ) (t : Array (PktCount F)) (l : ℕ)
      → l < n
      → Counted [] (slots_of (init_table ipg n t l))
  unfolding init_table update
  init_table-Counted ipg zero t l h = absurd (omega arith)
  init_table-Counted ipg (suc i) t l h = elim (Bool-cases (l == i)) [
    | inl last ↦ rw last (reset-Counted ipg _)
    | inr before ↦ rw before (init_table-Counted ipg i t l (ground arith))
  ]

pub after-append : (ms ns : List Mbuf) (rs : List ℕ) → after (ms ++ ns) rs ≡ after ns (after ms rs)
unfolding after
after-append [] ns rs = refl
after-append (m ∷ ms) ns rs = after-append ms ns (m.rss ∷ rs)

pub All-split : (P : Mbuf → Type 0) (ms ns : List Mbuf) → All P (ms ++ ns) → All P ms × All P ns
All-split P [] ns h = (tt, h)
All-split P (m ∷ ms) ns h = let (a, b) = All-split P ms ns h.1 in ((h.0, a), b)

-- the two parts of a hash
abbrev pub low : Setting → ℕ → ℕ
low k = masked_low k.masks

abbrev pub high : Setting → ℕ → ℕ
high k = masked_high k.masks

-- every bucket stands for its part of the history `rs`
abbrev pub Tabled : {F : Type 0} → Setting → List ℕ → Array (PktCount F) → Type 0
Tabled k rs t = (l : ℕ) → l < flow_num → Counted (marks (low k) (high k) l rs) (slots_of (t l))

module _ {R F : Type 0} ⦃fp : Arithmetic F⦄ (ops : Ring R) (k : Setting) where
  count_packet-Tabled :
      (global : ℕ) (rs : List ℕ) (t : Array (PktCount F)) (m : Mbuf)
      → high k m.rss ≢ 0
      → Marked (low k) (high k) rs
      → Tabled k rs t
      → Tabled k (m.rss ∷ rs) (count_packet ops k global t m)
  unfolding count_packet update marks
  count_packet-Tabled global rs t m nz mk old l lt = elim (Bool-cases (l == low k m.rss)) [
    | inl own ↦
        let e : low k m.rss ≡ l = ground arith in
        rw (own, e, packet-arrive k.ipg global (high k m.rss) (t l))
          (arrive-Counted (high k m.rss) (marks (low k) (high k) l rs) (slots_of (t l)) nz
            (marks-Nonzero (low k) (high k) l rs mk) (old l lt))
    | inr other ↦ rw other (old l lt)
  ]

  count_loop-Tabled :
      (global : ℕ) (ms : List Mbuf) (rs : List ℕ) (s : Array (PktCount F) × List ℕ)
      → MarkedBurst (low k) (high k) ms
      → Marked (low k) (high k) rs
      → Tabled k rs s.0
      → Tabled k (after ms rs) (count_loop ops k global ms s).0
  unfolding count_loop after
  count_loop-Tabled global [] rs s h mk old = old
  count_loop-Tabled global (m ∷ ms) rs s h mk old =
      count_loop-Tabled global ms (m.rss ∷ rs) _ h.1 (h.0, mk)
        (count_packet-Tabled global rs s.0 m h.0 mk old)

  pub count_burst-Tabled :
      (ms : List Mbuf) (rs : List ℕ) (s : State R F)
      → MarkedBurst (low k) (high k) ms
      → Marked (low k) (high k) rs
      → Tabled k rs s.pkt_ctr
      → Tabled k (after ms rs) (count_burst ops k ms s).pkt_ctr
  unfolding count_burst after
  count_burst-Tabled [] rs s h mk old = old
  count_burst-Tabled (m ∷ ms) rs s h mk old =
      count_loop-Tabled _ (m ∷ ms) rs (s.pkt_ctr, s.freed) h mk old

  lcore_main_rx-pkt_ctr :
      (bufs : List Mbuf) (s : State R F) → (lcore_main_rx ops k bufs s).pkt_ctr ≡ s.pkt_ctr
  unfolding lcore_main_rx
  lcore_main_rx-pkt_ctr [] s = refl
  lcore_main_rx-pkt_ctr (m ∷ ms) s = refl

  run-Tabled :
      (es : List Event) (rs : List ℕ) (s : State R F)
      → MarkedBurst (low k) (high k) (served ops k es s)
      → Marked (low k) (high k) rs
      → Tabled k rs s.pkt_ctr
      → Tabled k (after (served ops k es s) rs) (run ops k es s).pkt_ctr
  unfolding run served step after
  run-Tabled [] rs s h mk old = old
  run-Tabled (receive bufs ∷ es) rs s h mk old =
      run-Tabled es rs (lcore_main_rx ops k bufs s) h mk (rw (lcore_main_rx-pkt_ctr bufs s) old)
  run-Tabled (serve ∷ es) rs s h mk old =
      let taken = ops.dequeue_burst s.ring k.burst_size in
      let s0 = record s { ring = taken.1 } in
      let s1 = count_burst ops k taken.0 s0 in
      let (now, later) = All-split (λ m. high k m.rss ≢ 0) taken.0 (served ops k es s1) h in
      rw (after-append taken.0 (served ops k es s1) rs) (
        run-Tabled es (after taken.0 rs) s1 later (after-All (λ r. high k r ≢ 0) taken.0 rs now mk)
          (count_burst-Tabled taken.0 rs s0 now mk old))

  -- Whatever the order in which the receive thread and the counting thread run, on the table that
  -- `main` has reset each bucket stands for the packets that were taken out of the ring: the first
  -- flow to arrive and the first other one have exact counters, modulo 2 ^ 64. No packet that is
  -- taken out has a masked upper part of 0.
  pub run-Counted :
      (es : List Event) (s : State R F) (t : Array (PktCount F)) (l : ℕ)
      → MarkedBurst (low k) (high k) (served ops k es s)
      → s.pkt_ctr ≡ init_table k.ipg flow_num t
      → l < flow_num
      → Counted
          (marks (low k) (high k) l (after (served ops k es s) []))
          (slots_of ((run ops k es s).pkt_ctr l))
  unfolding marks
  run-Counted es s t l h e lt =
      run-Tabled es [] s h tt (rw e (λ j le. init_table-Counted k.ipg flow_num t j le)) l lt
