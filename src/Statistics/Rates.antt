-- ===== src/Statistics/Rates.antt =====
-- The lines that `timer_cb` prints, where `double` holds the counters exactly.
use mathlib.Core.Path.{subst}
use flo_watcher_dpdk.Common.{
  ℕ, zero, suc, ◌+◌, ◌-◌, ◌^◌, ◌≤◌, ◌<◌, ◌≡◌, refl, sym, ap, ◌∙◌, List, [], ◌∷◌, Option, Array,
  arith, sum_below,
}
use flo_watcher_dpdk.Common.Int.{pos}
use flo_watcher_dpdk.Double.{Arithmetic}
use flo_watcher_dpdk.Statistics.{Line, add_counters, line}

-- the whole numbers up to which `double` has each
abbrev pub exact : ℕ
exact = 2 ^ 53

-- What IEEE 754 says of whole numbers in `double`, and the 64-bit ones in particular: `Is x n` reads
-- "x is the number n".
pub record IsExact {F : Type 0} (fp : Arithmetic F) (Is : F → ℕ → Type 0) : Type 0 where
  pub zero_is : Is (fp.of_int (pos 0)) 0
  pub of_u64_is : (n : ℕ) → n < exact → Is (fp.of_u64 n) n
  pub add_is : (x y : F) (m n : ℕ) → Is x m → Is y n → m + n < exact → Is (fp.add x y) (m + n)
  pub sub_is : (x y : F) (m n : ℕ) → Is x m → Is y n → m < exact → n ≤ m → Is (fp.sub x y) (m - n)

-- the packets of some seconds
unfoldable pub packets_of : List (ℕ × ℕ) → ℕ
packets_of [] = 0
packets_of ((packets, dropped) ∷ seconds) = packets + packets_of seconds

sum_below_mono : (f : Array ℕ) (n k : ℕ) → sum_below n f ≤ sum_below (n + k) f
unfolding sum_below
sum_below_mono f n zero =
    let e : n ≡ n + 0 = omega arith in omega (arith, ap (λ m. sum_below m f) e)
sum_below_mono f n (suc k) =
    let e : suc (n + k) ≡ n + suc k = omega arith in
    omega (arith, ap (λ m. sum_below m f) e, sum_below_mono f n k)

module _ {F : Type 0} ⦃fp : Arithmetic F⦄ (Is : F → ℕ → Type 0) where
  -- the line shows `now` packets in all, the quotient of those since `before` by a million, and
  -- `dropped` packets
  pub record Tells (before now dropped : ℕ) (l : Line F) : Type 0 where
    pub total : Is l.total now
    pub rate : (d : F) × Is d (now - before) × (l.rate ≡ fp.div d (fp.of_int (pos 1000000)))
    pub dropped_is : l.dropped ≡ dropped

  -- the lines show one after the other what came in each second, on top of `before`, and was dropped
  abbrev pub Shown : ℕ → List (ℕ × ℕ) → List (Line F) → Type 0
  Shown before [] [] = Unit
  Shown before [] (l ∷ ls) = ⊥
  Shown before (second ∷ seconds) [] = ⊥
  Shown before ((packets, dropped) ∷ seconds) (l ∷ ls) =
      Tells before (before + packets) dropped l × Shown (before + packets) seconds ls

  module _ (laws : IsExact fp Is) where
    add_counters-Is :
        (re : Array ℕ) (rounds i : ℕ) (j : F)
        → Is j (sum_below i re)
        → sum_below (i + rounds) re < exact
        → Is (add_counters re rounds i j) (sum_below (i + rounds) re)
    unfolding add_counters sum_below
    add_counters-Is re zero i j h few =
        let e : i ≡ i + 0 = omega arith in subst (λ n. Is j (sum_below n re)) e h
    add_counters-Is re (suc rounds) i j h few =
        let e : i + 1 + rounds ≡ i + suc rounds = omega arith in
        let f : suc i ≡ i + 1 = omega arith in
        let few' : sum_below (i + 1 + rounds) re < exact =
          subst (λ n. sum_below n re < exact) (sym e) few in
        let here : sum_below (i + 1) re < exact = omega (arith, sum_below_mono re (i + 1) rounds) in
        let g = ap (λ n. sum_below n re) f in
        subst
          (λ n. Is (add_counters re rounds (i + 1) (fp.add j (fp.of_u64 (re i)))) (sum_below n re))
          e
          (add_counters-Is re rounds (i + 1) (fp.add j (fp.of_u64 (re i)))
            (subst (λ n. Is (fp.add j (fp.of_u64 (re i))) n) g
              (laws.add_is j (fp.of_u64 (re i)) (sum_below i re) (re i) h
                (laws.of_u64_is (re i) (omega (arith, g))) (omega (arith, g))))
            few')

    -- one call: the counters add up to `now`, and `old` is what they added up to before
    pub line-Tells :
        (re : Array ℕ) (n before now dropped : ℕ) (average std_dev : Option F) (old : F)
        → sum_below n re ≡ now
        → now < exact
        → before ≤ now
        → Is old before
        → let l = line re n dropped average std_dev old in Tells before now dropped l.0 × Is l.1 now
    unfolding line sum_below
    line-Tells re n before now dropped average std_dev old e few le h =
        let e0 : 0 + n ≡ n = omega arith in
        let few' : sum_below (0 + n) re < exact = omega (arith, ap (λ n. sum_below n re) e0) in
        let j : Is (add_counters re n 0 (fp.of_int (pos 0))) now =
          subst (Is (add_counters re n 0 (fp.of_int (pos 0)))) (ap (λ n. sum_below n re) e0 ∙ e)
            (add_counters-Is re n 0 (fp.of_int (pos 0)) laws.zero_is few') in
        (
          record {
            total = j;
            rate = (_, laws.sub_is _ old now before j h few le, refl);
            dropped_is = refl;
          },
          j,
        )
