-- ===== src/Slots.antt =====
-- What a bucket with two counted flows promises, whichever program owns it: the first flow to arrive
-- and the first other one are counted, the packets of all further flows are not.
pub mod Used
use flo_watcher_dpdk.Common.{
  ℕ, ◌+◌, ◌%◌, ◌≡◌, ◌≢◌, true, false, not, ◌&&◌, List, [], ◌∷◌, arith, count, ◌==◌, u64_mod,
  if◌then◌else◌, Bool-cases, inl, inr,
}
use flo_watcher_dpdk.Common.History.{
  earliest, without, Nonzero, earliest-cons, without-Nonzero, eq_nil_of_earliest,
  earliest-without_ne, count-zero, without-eq-nil, count-eq-zero,
}

pub record Slots : Type 0 where
  pub hi_f1 : ℕ
  pub hi_f2 : ℕ
  pub ctr0 : ℕ
  pub ctr1 : ℕ

-- a packet with mark `h`, under `uint64_t` counters
unfoldable pub arrive : ℕ → Slots → Slots
arrive h s =
    if s.hi_f1 == 0
    then record s { hi_f1 = h; ctr0 = (s.ctr0 + 1) % u64_mod }
    else if (s.hi_f2 == 0) && not (s.hi_f1 == h)
    then record s { hi_f2 = h; ctr1 = (s.ctr1 + 1) % u64_mod }
    else if s.hi_f1 == h
    then record s { ctr0 = (s.ctr0 + 1) % u64_mod }
    else if s.hi_f2 == h
    then record s { ctr1 = (s.ctr1 + 1) % u64_mod }
    else s

-- the slots after the history `hs`
pub record Counted (hs : List ℕ) (s : Slots) : Type 0 where
  pub first : s.hi_f1 ≡ earliest hs
  pub second : s.hi_f2 ≡ earliest (without s.hi_f1 hs)
  pub ctr0 : s.ctr0 ≡ count s.hi_f1 hs % u64_mod
  pub ctr1 : s.ctr1 ≡ count s.hi_f2 hs % u64_mod

module _ (h : ℕ) (hs : List ℕ) (s : Slots) (nz : h ≢ 0) (n : Nonzero hs) (k : Counted hs s) where
  arrive-free : (s.hi_f1 == 0) ≡ true → Counted (h ∷ hs) (arrive h s)
  unfolding arrive count without earliest
  arrive-free e =
      let nil : hs ≡ [] = eq_nil_of_earliest hs n (ground (arith, k.first)) in
      let k' : Counted [] s = rw nil at k in rw (e, nil) (ground arith)

  arrive-taken : (s.hi_f1 == 0) ≡ false → Counted (h ∷ hs) (arrive h s)
  unfolding arrive count without
  arrive-taken e =
      let first = earliest-cons h hs n in
      let second = earliest-cons h (without s.hi_f1 hs) (without-Nonzero s.hi_f1 hs n) in
      let unmarked = count-zero hs n in
      elim (Bool-cases (s.hi_f1 == h)) [
        | inl own ↦ elim (Bool-cases (s.hi_f2 == 0)) [
          | inl open_slot ↦ rw (e, own, open_slot) (ground arith)
          | inr full ↦ rw (e, own, full) (ground (arith, earliest-without_ne s.hi_f1 hs))
        ]
        | inr other ↦ elim (Bool-cases (s.hi_f2 == 0)) [
          | inl open_slot ↦
              rw (e, other, open_slot)
                (ground (arith, without-eq-nil s.hi_f1 hs n, count-eq-zero s.hi_f1 h hs n))
          | inr full ↦ elim (Bool-cases (s.hi_f2 == h)) [
            | inl next ↦ rw (e, other, full, next) (ground arith)
            | inr third ↦ rw (e, other, full, third) (ground arith)
          ]
        ]
      ]

  pub arrive-Counted : Counted (h ∷ hs) (arrive h s)
  arrive-Counted = elim (Bool-cases (s.hi_f1 == 0)) [
    | inl free ↦ arrive-free free
    | inr taken ↦ arrive-taken taken
  ]
