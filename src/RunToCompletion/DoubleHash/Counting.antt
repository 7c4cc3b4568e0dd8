-- ===== src/RunToCompletion/DoubleHash/Counting.antt =====
-- What the counters of a DOUBLE_HASH bucket stand for.
use flo_watcher_dpdk.Common.{ℕ, ◌%◌, ◌≡◌, refl, ◌≢◌, List, [], ◌∷◌, arith, count, length, u32_mod}
use flo_watcher_dpdk.Common.History.{
  earliest, without, Nonzero, earliest-cons, without-Nonzero, eq_nil_of_earliest,
  earliest-without_ne, count-zero, without-eq-nil, count-eq-zero,
}
use flo_watcher_dpdk.Common.{sym, ◌+◌}
use native.Mathlib.Decide.{ℕ_discrete}
use flo_watcher_dpdk.Common.History.{count-without, count-add-without}
use flo_watcher_dpdk.Common.{true, false, ◌==◌, ==_iff, Bool-cases, inl, inr}
use flo_watcher_dpdk.Double.{Arithmetic}
use flo_watcher_dpdk.RunToCompletion.{Build}
use flo_watcher_dpdk.RunToCompletion.DoubleHash.{PktCount, packet}

-- the bucket after the history `hs`
pub record Counted {F : Type 0} (hs : List ℕ) (c : PktCount F) : Type 0 where
  pub first : c.hi_f1 ≡ earliest hs
  pub second : c.hi_f2 ≡ earliest (without c.hi_f1 hs)
  pub ctr0 : c.ctr0 ≡ count c.hi_f1 hs % u32_mod
  pub ctr1 : c.ctr1 ≡ count c.hi_f2 hs % u32_mod
  pub ctr2 : c.ctr2 ≡ length (without c.hi_f2 (without c.hi_f1 hs)) % u32_mod

module _ {F : Type 0} ⦃fp : Arithmetic F⦄ (b : Build) (global h : ℕ) (hs : List ℕ) (c : PktCount F)
    (nz : h ≢ 0) (n : Nonzero hs) (k : Counted hs c) where
  packet-free : (c.hi_f1 == 0) ≡ true → Counted (h ∷ hs) (packet b global h c)
  unfolding packet count without earliest
  packet-free e =
      let nil : hs ≡ [] =
        eq_nil_of_earliest hs n (omega (arith, k.first, (==_iff c.hi_f1 0).0 e)) in
      let k' : Counted [] c = rw nil at k in rw (e, nil) (ground arith)

  packet-taken : (c.hi_f1 == 0) ≡ false → Counted (h ∷ hs) (packet b global h c)
  unfolding packet count without
  packet-taken e =
      let first = earliest-cons h hs n in
      let second = earliest-cons h (without c.hi_f1 hs) (without-Nonzero c.hi_f1 hs n) in
      let zero = count-zero hs n in
      elim (Bool-cases (c.hi_f1 == h)) [
        | inl own ↦ elim (Bool-cases (c.hi_f2 == 0)) [
          | inl none ↦ rw (e, own, none) (ground arith)
          | inr some ↦ rw (e, own, some) (ground (arith, earliest-without_ne c.hi_f1 hs))
        ]
        | inr other ↦ elim (Bool-cases (c.hi_f2 == 0)) [
          | inl none ↦
              rw (e, other, none)
                (ground (arith, without-eq-nil c.hi_f1 hs n, count-eq-zero c.hi_f1 h hs n))
          | inr some ↦ elim (Bool-cases (c.hi_f2 == h)) [
            | inl next ↦ rw (e, other, some, next) (ground arith)
            | inr third ↦ rw (e, other, some, third) (ground arith)
          ]
        ]
      ]

  pub packet-Counted : Counted (h ∷ hs) (packet b global h c)
  packet-Counted = elim (Bool-cases (c.hi_f1 == 0)) [
    | inl free ↦ packet-free free
    | inr taken ↦ packet-taken taken
  ]

-- what the three counters of a bucket count makes up its packets
pub Counted-parts :
    {F : Type 0} (hs : List ℕ) (c : PktCount F)
    → Nonzero hs
    → Counted hs c
    → count c.hi_f1 hs + count c.hi_f2 hs + length (without c.hi_f2 (without c.hi_f1 hs))
      ≡ length hs
unfolding count without
Counted-parts hs c n k = elim (ℕ_discrete c.hi_f1 c.hi_f2) [
  | yes same ↦ elim (ℕ_discrete c.hi_f1 0) [
    | yes free ↦ let nil : hs ≡ [] = eq_nil_of_earliest hs n (omega (arith, k.first)) in rw nil refl
    | no taken ↦ absurd (earliest-without_ne c.hi_f1 hs taken (omega (arith, k.second)))
  ]
  | no apart ↦ omega (
    arith,
    count-add-without c.hi_f1 hs,
    count-add-without c.hi_f2 (without c.hi_f1 hs),
    count-without c.hi_f2 c.hi_f1 hs (λ e. apart (sym e)),
  )
]

-- the three counters of a bucket make up its packets, modulo 2 ^ 32
Counted-total :
    {F : Type 0} (hs : List ℕ) (c : PktCount F)
    → Nonzero hs
    → Counted hs c
    → (c.ctr0 + c.ctr1 + c.ctr2) % u32_mod ≡ length hs % u32_mod
Counted-total hs c n k = omega (arith, Counted-parts hs c n k, k.ctr0, k.ctr1, k.ctr2)
