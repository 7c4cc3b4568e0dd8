-- ===== src/Slots/Used.antt =====
-- How many of the two slots of a bucket count, against the number of different flows in its history.
use Prim.Native.Nat.{min}
use flo_watcher_dpdk.Common.{
  ℕ, ◌+◌, ◌<◌, ◌≡◌, refl, ◌≢◌, List, [], ◌∷◌, arith, count, count-le-length, length, ◌==◌, ltb,
  u64_mod, if◌then◌else◌, Bool-cases, inl, inr,
}
use flo_watcher_dpdk.Common.History.{
  earliest, without, Nonzero, count-without, count-zero, without-Nonzero, eq_nil_of_earliest,
  earliest-without_ne,
}
use flo_watcher_dpdk.Slots.{Slots, Counted}
use flo_watcher_dpdk.Tally.{distinct}

-- the slots with a counter other than 0
unfoldable pub used_slots : Slots → ℕ
used_slots s = (if ltb 0 s.ctr0 then 1 else 0) + (if ltb 0 s.ctr1 then 1 else 0)

without-absent : (f : ℕ) (hs : List ℕ) → count f hs ≡ 0 → without f hs ≡ hs
unfolding count without
without-absent f [] e = refl
without-absent f (h ∷ hs) e = ground (arith, without-absent f hs)

-- a flow that occurs is one of the different flows, the others are those of the other packets
distinct-without :
    (f : ℕ) (hs : List ℕ) → 0 < count f hs → distinct hs ≡ 1 + distinct (without f hs)
unfolding count without distinct
distinct-without f [] h = absurd (omega arith)
distinct-without f (x ∷ xs) h = elim (Bool-cases (x == f)) [
  | inl own ↦
      let e : x ≡ f = ground arith in
      elim (Bool-cases (count f xs == 0)) [
        | inl new ↦ ground (arith, without-absent f xs)
        | inr old ↦ ground (arith, distinct-without f xs)
      ]
  | inr other ↦ ground (arith, distinct-without f xs, count-without x f xs)
]

count-earliest : (hs : List ℕ) → earliest hs ≢ 0 → 0 < count (earliest hs) hs
unfolding earliest count
count-earliest [] nz = absurd (nz refl)
count-earliest (x ∷ []) nz = ground arith
count-earliest (x ∷ y ∷ ys) nz = omega (arith, count-earliest (y ∷ ys) nz)

-- where the counters cannot wrap
pub used_slots-distinct :
    (hs : List ℕ) (s : Slots)
    → Nonzero hs
    → Counted hs s
    → length hs < u64_mod
    → used_slots s ≡ min 2 (distinct hs)
unfolding used_slots distinct count
used_slots-distinct hs s n k small =
    let le0 = count-le-length s.hi_f1 hs in
    let le1 = count-le-length s.hi_f2 hs in
    elim (Bool-cases (s.hi_f1 == 0)) [
      | inl free ↦
          let nil : hs ≡ [] = eq_nil_of_earliest hs n (ground (arith, k.first)) in
          let none0 = rw nil at k.ctr0 in
          let none1 = rw nil at k.ctr1 in rw nil (ground (arith, none0, none1))
      | inr taken ↦
          let some0 : 0 < count s.hi_f1 hs =
            rw k.first (count-earliest hs (ground (arith, k.first))) in
          let split = distinct-without s.hi_f1 hs some0 in
          let others = without s.hi_f1 hs in
          elim (Bool-cases (s.hi_f2 == 0)) [
            | inl free ↦
                let e : s.hi_f2 ≡ 0 = ground arith in
                let nil : others ≡ [] =
                  eq_nil_of_earliest others (without-Nonzero s.hi_f1 hs n)
                    (ground (arith, k.second)) in
                let one : distinct hs ≡ 1 = rw nil at split in
                let none1 : count s.hi_f2 hs ≡ 0 = rw e (count-zero hs n) in
                ground (arith, k.ctr0, k.ctr1)
            | inr full ↦
                let some1 : 0 < count s.hi_f2 others =
                  rw k.second (count-earliest others (ground (arith, k.second))) in
                let apart : s.hi_f2 ≢ s.hi_f1 =
                  ground (arith, k.second, earliest-without_ne s.hi_f1 hs) in
                let here = count-without s.hi_f2 s.hi_f1 hs apart in
                let more = distinct-without s.hi_f2 others some1 in ground (arith, k.ctr0, k.ctr1)
          ]
    ]
