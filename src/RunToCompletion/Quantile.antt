-- ===== src/RunToCompletion/Quantile.antt =====
-- The QUANTILE build: the P-square estimate of one percentile by five markers. The positions
-- are `int`s. One that is counted up at its upper end goes to the lower one here, which the source leaves
-- undefined; differences and moves of positions that are above 0 and in order stay within an `int`.
pub mod Markers
pub mod Sorting
use flo_watcher_dpdk.Common.{
  ℕ, zero, suc, ◌+◌, ◌-◌, Bool, ◌&&◌, ◌||◌, Array, update, ltb, ◌==◌, if◌then◌else◌,
}
use flo_watcher_dpdk.Common.Int.{ℤ, pos, negsuc, ◌+ℤ◌, ◌-ℤ◌, ltb_ℤ, leb_ℤ}
use flo_watcher_dpdk.Double.{Arithmetic}

-- `struct quantile`: heights, the number of heights collected, positions, desired positions
pub record Quantile (F : Type 0) : Type 0 where
  pub q : Array F
  pub l : ℕ
  pub n : Array ℤ
  pub n1 : Array F

-- qt->n[i]++
unfoldable pub succ_int : ℤ → ℤ
succ_int n = if ltb_ℤ n (pos 2147483647) then n +ℤ pos 1 else negsuc 2147483647

-- while (k<4) { qt->n[k+1]++; k++; }, in the rounds that are left
unfoldable pub increment : ℕ → ℕ → Array ℤ → Array ℤ
increment zero k n = n
increment (suc rounds) k n = increment rounds (k + 1) (update n (k + 1) (succ_int (n (k + 1))))

module _ {F : Type 0} ⦃fp : Arithmetic F⦄ where
  -- the cell of an observation, and the heights with the outer ones moved
  unfoldable pub find_cell : F → Array F → ℕ × Array F
  find_cell x q =
      if fp.lt (q 2) x
      then if fp.lt x (q 3)
        then (2, q)
        else if fp.le (q 3) x && fp.le x (q 4)
        then (3, q)
        else (3, update q 4 x)
      else if fp.le (q 1) x
      then (1, q)
      else if fp.le (q 0) x && fp.lt x (q 1)
      then (0, q)
      else (0, update q 0 x)

  -- Update desired positions for all markers
  unfoldable pub desired : Array F → Array F
  desired n1 =
      let n1 = update n1 0 (fp.single (fp.add (n1 0) (fp.of_int (pos 0)))) in
      let n1 = update n1 1 (fp.single (fp.add (n1 1) (fp.div fp.const_p (fp.of_int (pos 2))))) in
      let n1 = update n1 2 (fp.single (fp.add (n1 2) fp.const_p)) in
      let n1 = update n1 3 (
        fp.single
          (fp.add (n1 3) (fp.div (fp.add fp.const_p (fp.of_int (pos 1))) (fp.of_int (pos 2))))) in
      update n1 4 (fp.single (fp.add (n1 4) (fp.of_int (pos 1))))

  -- the parabolic height of marker `suc i`, moved by `d`
  unfoldable pub parabolic : Quantile F → ℕ → ℤ → F
  parabolic qt i d =
      let below = qt.n (suc i) -ℤ qt.n i in
      let above = qt.n (suc (suc i)) -ℤ qt.n (suc i) in
      let share =
        fp.single (
          fp.div (fp.single (fp.of_int d))
            (fp.single (fp.of_int (qt.n (suc (suc i)) -ℤ qt.n i)))) in
      let rise =
        fp.div (fp.mul (fp.of_int (below +ℤ d)) (fp.sub (qt.q (suc (suc i))) (qt.q (suc i))))
          (fp.of_int above) in
      let fall =
        fp.div (fp.mul (fp.of_int (above -ℤ d)) (fp.sub (qt.q (suc i)) (qt.q i)))
          (fp.of_int below) in
      fp.add (qt.q (suc i)) (fp.single (fp.mul share (fp.single (fp.add rise fall))))

  -- its height on the line to marker `j`
  unfoldable pub linear : Quantile F → ℕ → ℕ → ℤ → F
  linear qt i j d =
      fp.add (qt.q i)
        (fp.div (fp.mul (fp.of_int d) (fp.sub (qt.q j) (qt.q i))) (fp.of_int (qt.n j -ℤ qt.n i)))

  -- marker `suc i` moved by `d`, towards its neighbour `j`
  unfoldable pub move : Quantile F → ℕ → ℕ → ℤ → Quantile F
  move qt i j d =
      let q1 = parabolic qt i d in
      let height =
        if fp.lt (qt.q i) q1 && fp.lt q1 (qt.q (suc (suc i))) then q1 else linear qt (suc i) j d in
      record qt { q = update qt.q (suc i) height; n = update qt.n (suc i) (qt.n (suc i) +ℤ d) }

  -- one round of the loop over the markers 2 to 4, for marker `suc i`
  unfoldable pub adjust : ℕ → Quantile F → Quantile F
  adjust i qt =
      let d =
        fp.to_int (fp.single (fp.sub (qt.n1 (suc i)) (fp.single (fp.of_int (qt.n (suc i)))))) in
      if leb_ℤ (pos 1) d && ltb_ℤ (pos 1) (qt.n (suc (suc i)) -ℤ qt.n (suc i))
        || leb_ℤ d (negsuc 0) && ltb_ℤ (qt.n i -ℤ qt.n (suc i)) (negsuc 0)
      then if ltb_ℤ (pos 0) d then move qt i (suc (suc i)) (pos 1) else move qt i i (negsuc 0)
      else qt

  -- get_qt (qt, x)
  unfoldable pub get_qt : ℕ → Quantile F → Quantile F
  get_qt x qt =
      let cell = find_cell (fp.of_u64 x) qt.q in
      adjust 2 (
        adjust 1 (
          adjust 0
            (record qt { q = cell.1; n = increment (4 - cell.0) cell.0 qt.n; n1 = desired qt.n1 })))

  -- tmp = n[j]; n[j] = n[j-1]; n[j-1] = tmp, for `j = suc i`, through an `int`
  unfoldable pub swap_down : ℕ → Array F → Array F
  swap_down i n =
      let tmp = fp.to_int (n (suc i)) in update (update n (suc i) (n i)) i (fp.of_int tmp)

  -- while (j>0 && n[j]<n[j-1]) { swap; j--; }
  unfoldable pub sink : ℕ → Array F → Array F
  sink zero n = n
  sink (suc i) n =
      let moved = sink i (swap_down i n) in if fp.lt (n (suc i)) (n i) then moved else n

  -- insertSort (n)
  unfoldable pub insert_sort : Array F → Array F
  insert_sort n = sink 4 (sink 3 (sink 2 (sink 1 n)))

  -- init (qt)
  unfoldable pub init : Quantile F → Quantile F
  init qt =
      let one = fp.of_int (pos 1) in
      let p2 = fp.mul (fp.of_int (pos 2)) fp.const_p in
      let p4 = fp.mul (fp.of_int (pos 4)) fp.const_p in
      let n = update (update (update qt.n 0 (pos 1)) 1 (pos 2)) 2 (pos 3) in
      let n1 =
        update (update (update qt.n1 0 (fp.single one)) 1 (fp.single (fp.add one p2))) 2
          (fp.single (fp.add one p4)) in
      record qt {
        n = update (update n 3 (pos 4)) 4 (pos 5);
        n1 =
            update (update n1 3 (fp.single (fp.add (fp.of_int (pos 3)) p2))) 4
              (fp.single (fp.of_int (pos 5)));
      }

  -- a gap `curr` of a flow: the first five are collected, the others estimate
  unfoldable pub observe : ℕ → Quantile F → Quantile F
  observe curr qt =
      if ltb qt.l 5
      then record qt { q = update qt.q qt.l (fp.of_i64 curr); l = qt.l + 1 }
      else get_qt curr (if qt.l == 5 then record qt { q = insert_sort qt.q } else qt)
