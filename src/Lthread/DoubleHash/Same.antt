-- ===== src/Lthread/DoubleHash/Same.antt =====
-- The flow table of lthread/main.c against the one of run_to_completion/main.c in its DOUBLE_HASH
-- build: they count alike, whatever the two do about inter-packet gaps.
use flo_watcher_dpdk.Common.{
  ℕ, zero, suc, ◌≡◌, refl, true, false, not, ◌&&◌, Array, update, ◌==◌, Bool-cases, inl, inr,
}
use flo_watcher_dpdk.Double.{Arithmetic}
use flo_watcher_dpdk.Lthread.DoubleHash.{
  Macros, PktCount, first_flow, second_flow, packet, reset, init_table,
}
use flo_watcher_dpdk.RunToCompletion.{Build}
use flo_watcher_dpdk.RunToCompletion.DoubleHash

-- run_to_completion with FLOW_LEVEL alone
abbrev pub counting : Build
counting = record { flow_level = true; ipg = false; quantile = false }

module _ {F : Type 0} ⦃fp : Arithmetic F⦄ where
  -- what a bucket counts, as a bucket of run_to_completion
  abbrev pub counts_of : PktCount F → DoubleHash.PktCount F
  counts_of c = record {
    hi_f1 = c.hi_f1;
    hi_f2 = c.hi_f2;
    ctr0 = c.ctr0;
    ctr1 = c.ctr1;
    ctr2 = c.ctr2;
    ipg0 = 0;
    ipg1 = 0;
    avg0 = fp.of_u64 0;
    avg1 = fp.of_u64 0;
  }

  pub packet-counts :
      (b : Macros) (global g h : ℕ) (c : PktCount F)
      → counts_of (packet b global h c) ≡ DoubleHash.packet counting g h (counts_of c)
  unfolding packet DoubleHash.packet first_flow second_flow
  packet-counts b global g h c = elim (Bool-cases (c.hi_f1 == 0)) [
    | inl free ↦ rw free refl
    | inr taken ↦ elim (Bool-cases ((c.hi_f2 == 0) && not (c.hi_f1 == h))) [
      | inl second ↦ rw (taken, second) refl
      | inr full ↦ elim (Bool-cases (c.hi_f1 == h)) [
        | inl own ↦ elim (Bool-cases b.ipg) [
          | inl on ↦ rw (taken, full, own, on) refl
          | inr off ↦ rw (taken, full, own, off) refl
        ]
        | inr other ↦ elim (Bool-cases (c.hi_f2 == h)) [
          | inl next ↦ elim (Bool-cases b.ipg) [
            | inl on ↦ rw (taken, full, other, next, on) refl
            | inr off ↦ rw (taken, full, other, next, off) refl
          ]
          | inr third ↦ rw (taken, full, other, third) refl
        ]
      ]
    ]
  ]

  reset-counts :
      (b : Macros) (c : PktCount F)
      → counts_of (reset b c) ≡ DoubleHash.reset counting (counts_of c)
  unfolding reset DoubleHash.reset
  reset-counts b c = elim (Bool-cases b.ipg) [
    | inr off ↦ rw off refl
    | inl on ↦ elim (Bool-cases b.quantile) [
      | inl qt ↦ rw (on, qt) refl
      | inr plain ↦ rw (on, plain) refl
    ]
  ]

  pub init_table-counts :
      (b : Macros) (n : ℕ) (t : Array (PktCount F)) (l : ℕ)
      → counts_of (init_table b n t l) ≡ DoubleHash.init_table counting n (λ i. counts_of (t i)) l
  unfolding init_table DoubleHash.init_table update
  init_table-counts b zero t l = refl
  init_table-counts b (suc i) t l = elim (Bool-cases (l == i)) [
    | inl last ↦ rw (last, reset-counts b (init_table b i t i), init_table-counts b i t i) refl
    | inr before ↦ rw before (init_table-counts b i t l)
  ]
