-- ===== src/Tests/Quantile.antt =====
-- The theorems about the P-square estimate at whole numbers.
use mathlib.Core.List.{Perm}
use flo_watcher_dpdk.Common.{◌+◌, ◌≡◌, refl, Array, arith, if◌then◌else◌, ◌==◌}
use flo_watcher_dpdk.Common.Int.{ℤ, pos, ◌+ℤ◌, ◌<ℤ◌, ◌≤ℤ◌}
use flo_watcher_dpdk.RunToCompletion.Quantile.{Quantile, get_qt, insert_sort}
use flo_watcher_dpdk.RunToCompletion.Quantile.Markers.{Spaced, get_qt-Spaced}
use flo_watcher_dpdk.RunToCompletion.Quantile.Sorting.{
  IsOrder, SortedTo, heights, insert_sort-sorted,
}
use flo_watcher_dpdk.Tests.{integers}

-- five gaps, the first three in the wrong order
abbrev gaps : Array ℤ
gaps i = if i == 0 then pos 9 else if i == 1 then pos 4 else if i == 2 then pos 2 else pos (10 + i)

abbrev markers : Quantile ℤ
markers = record { q = gaps; l = 5; n = λ i. pos (i + 1); n1 = λ i. pos (i + 1) }

get_qt-Spaced_example :
    let m = (get_qt 7 markers).n in
    Spaced m × (m 0 ≡ pos 1) × (m 4 ≡ pos 6) × (pos 0 <ℤ m 0) × (m 4 ≤ℤ pos 2147483647)
unfolding ◌+ℤ◌
get_qt-Spaced_example = get_qt-Spaced 7 markers (ground arith) (ground arith) (ground arith)

order : IsOrder integers
order = record { lt_asymm = λ a b h. ground arith; le_trans = λ a b c h k. ground arith }

insert_sort-sorted_example :
    SortedTo 4 (insert_sort gaps) × Perm (heights (insert_sort gaps)) (heights gaps)
insert_sort-sorted_example = insert_sort-sorted gaps order (λ m. refl)
