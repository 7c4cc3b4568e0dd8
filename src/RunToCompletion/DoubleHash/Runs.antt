-- ===== src/RunToCompletion/DoubleHash/Runs.antt =====
-- The DOUBLE_HASH loops over whole runs: what the table holds after any bursts, what `handler`
-- reports, and which buffers are given back.
use flo_watcher_dpdk.Common.{
  ℕ, zero, suc, ◌<◌, ◌≡◌, ◌≢◌, true, List, [], ◌∷◌, arith, All, count, Array, update, ◌==◌,
  Bool-cases, inl, inr,
}
use flo_watcher_dpdk.Common.History.{without, earliest}
use flo_watcher_dpdk.Double.{Arithmetic}
use flo_watcher_dpdk.Dpdk.{Mbuf}
use flo_watcher_dpdk.RunToCompletion.{Build, flow_num, index_low, index_high}
use flo_watcher_dpdk.Buckets.{marks, after, after_all, after-All}
use flo_watcher_dpdk.RunToCompletion.Arrivals.{highs, Marked, highs-Nonzero, MarkedBurst}
use flo_watcher_dpdk.RunToCompletion.DoubleHash.{
  PktCount, State, count_packet, count_loop, burst, double_hash, reset, init_table,
}
use flo_watcher_dpdk.RunToCompletion.DoubleHash.Counting.{Counted, packet-Counted}

-- every bucket stands for its part of the history `rs`
abbrev pub Tabled : {F : Type 0} → List ℕ → Array (PktCount F) → Type 0
Tabled rs t = (l : ℕ) → l < flow_num → Counted (highs l rs) (t l)

module _ {F : Type 0} ⦃fp : Arithmetic F⦄ (b : Build) where
  count_packet-Tabled :
      (global : ℕ) (rs : List ℕ) (t : Array (PktCount F)) (m : Mbuf)
      → index_high m.rss ≢ 0
      → Marked rs
      → Tabled rs t
      → Tabled (m.rss ∷ rs) (count_packet b global t m)
  unfolding count_packet update marks
  count_packet-Tabled global rs t m nz mk k l lt = elim (Bool-cases (l == index_low m.rss)) [
    | inl own ↦
        let e : index_low m.rss ≡ l = ground arith in
        rw (own, e)
          (packet-Counted b global (index_high m.rss) (highs l rs) (t l) nz (highs-Nonzero l rs mk)
            (k l lt))
    | inr other ↦ rw other (k l lt)
  ]

  count_loop-Tabled :
      (global : ℕ) (ms : List Mbuf) (rs : List ℕ) (s : Array (PktCount F) × List ℕ)
      → MarkedBurst ms
      → Marked rs
      → Tabled rs s.0
      → Tabled (after ms rs) (count_loop b global ms s).0
  unfolding count_loop after
  count_loop-Tabled global [] rs s h mk k = k
  count_loop-Tabled global (m ∷ ms) rs s h mk k =
      count_loop-Tabled global ms (m.rss ∷ rs) _ h.1 (h.0, mk)
        (count_packet-Tabled global rs s.0 m h.0 mk k)

  module _ (flow : b.flow_level ≡ true) (q : ℕ) where
    burst-Tabled :
        (ms : List Mbuf) (rs : List ℕ) (s : State F)
        → MarkedBurst ms
        → Marked rs
        → Tabled rs s.pkt_ctr
        → Tabled (after ms rs) (burst b q ms s).pkt_ctr
    unfolding burst after
    burst-Tabled [] rs s h mk k = k
    burst-Tabled (m ∷ ms) rs s h mk k =
        simp flow (count_loop-Tabled _ (m ∷ ms) rs (s.pkt_ctr, s.freed) h mk k)

    double_hash-Tabled :
        (bursts : List (List Mbuf)) (rs : List ℕ) (s : State F)
        → All MarkedBurst bursts
        → Marked rs
        → Tabled rs s.pkt_ctr
        → Tabled (after_all bursts rs) (double_hash b q bursts s).pkt_ctr
    unfolding double_hash after_all
    double_hash-Tabled [] rs s h mk k = k
    double_hash-Tabled (ms ∷ rest) rs s h mk k =
        double_hash-Tabled rest (after ms rs) (burst b q ms s) h.1
          (after-All (λ r. index_high r ≢ 0) ms rs h.0 mk) (burst-Tabled ms rs s h.0 mk k)

  reset-Counted : (c : PktCount F) → Counted [] (reset b c)
  unfolding reset count earliest without
  reset-Counted c = elim (Bool-cases b.ipg) [
    | inl on ↦ rw on (ground arith)
    | inr off ↦ rw off (ground arith)
  ]

  init_table-Counted :
      (n : ℕ) (t : Array (PktCount F)) (l : ℕ) → l < n → Counted [] (init_table b n t l)
  unfolding init_table update
  init_table-Counted zero t l h = absurd (omega arith)
  init_table-Counted (suc i) t l h = elim (Bool-cases (l == i)) [
    | inl last ↦ rw last (reset-Counted _)
    | inr before ↦ rw before (init_table-Counted i t l (ground arith))
  ]

  -- After any bursts on a table that the port initialisation has reset, each bucket counts its own
  -- packets: the first flow to arrive and the first other one have exact counters, modulo 2 ^ 32,
  -- and `ctr[2]` has the packets of all further flows. The per-packet code is compiled in
  -- (FLOW_LEVEL), and no packet has an upper hash half of 0.
  pub double_hash-Counted :
      b.flow_level ≡ true
      → (q : ℕ) (bursts : List (List Mbuf)) (s : State F) (t : Array (PktCount F)) (l : ℕ)
      → All MarkedBurst bursts
      → s.pkt_ctr ≡ init_table b flow_num t
      → l < flow_num
      → Counted (highs l (after_all bursts [])) ((double_hash b q bursts s).pkt_ctr l)
  unfolding marks
  double_hash-Counted flow q bursts s t l h e lt =
      double_hash-Tabled flow q bursts [] s h tt (rw e (λ j le. init_table-Counted flow_num t j le))
        l lt
