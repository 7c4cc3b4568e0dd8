-- ===== src/RunToCompletion/Arrivals.antt =====
-- The packets that a run of run_to_completion/main.c receives, sorted by bucket: the vocabulary of
-- the statements about its three data structures.
use flo_watcher_dpdk.Common.{
  ℕ, ◌+◌, ◌*◌, ◌%◌, ◌<◌, ◌≤◌, ◌^◌, ◌≡◌, ap, List, [], ◌∷◌, arith, All, length, sum_below, u32_mod,
  u64_mod, bit_and-0xffff, bit_and-0xffff0000,
}
use flo_watcher_dpdk.Common.History.{Nonzero}
use flo_watcher_dpdk.Buckets
use flo_watcher_dpdk.Buckets.Partition
use flo_watcher_dpdk.Dpdk.{Mbuf}
use flo_watcher_dpdk.Tally.{distinct}
use flo_watcher_dpdk.RunToCompletion.{flow_num, index_low, index_high}

-- the two halves of a 32-bit hash address the table in bounds and give the hash back
index_halves :
    (rss : ℕ)
    → rss < 2 ^ 32
    → (index_low rss < flow_num)
      × (index_high rss < 2 ^ 16)
      × (index_high rss * flow_num + index_low rss ≡ rss)
unfolding index_low index_high
index_halves rss h = omega (arith, bit_and-0xffff rss, bit_and-0xffff0000 rss h)

pub index_low-lt : (rss : ℕ) → index_low rss < flow_num
unfolding index_low
index_low-lt rss = omega (arith, bit_and-0xffff rss)

-- the upper halves of the hashes that belong to bucket `l`
abbrev pub highs : ℕ → List ℕ → List ℕ
highs = Buckets.marks index_low index_high

-- no hash has an upper half of 0
abbrev pub Marked : List ℕ → Type 0
Marked = Buckets.Marked index_low index_high

abbrev pub MarkedBurst : List Mbuf → Type 0
MarkedBurst = Buckets.MarkedBurst index_low index_high

pub highs-Nonzero : (l : ℕ) (rs : List ℕ) → Marked rs → Nonzero (highs l rs)
highs-Nonzero = Buckets.marks-Nonzero index_low index_high

-- the table tells all 32-bit hashes apart
halves-apart :
    (a b : ℕ)
    → a < 2 ^ 32
    → b < 2 ^ 32
    → index_low a ≡ index_low b
    → index_high a ≡ index_high b
    → a ≡ b
halves-apart a b p q l h =
    omega (arith, index_halves a p, index_halves b q, ap (λ x. x * flow_num) h)

pub highs-le : (l : ℕ) (rs : List ℕ) → length (highs l rs) ≤ length rs
highs-le = Partition.marks-length_le index_low index_high

All-of : {P : ℕ → Type 0} → ((r : ℕ) → P r) → (rs : List ℕ) → All P rs
All-of f [] = tt
All-of f (r ∷ rs) = (f r, All-of f rs)

-- each packet belongs to one bucket
pub highs-total : (rs : List ℕ) → sum_below flow_num (λ l. length (highs l rs)) ≡ length rs
highs-total rs = Partition.marks-length index_low index_high flow_num rs (All-of index_low-lt rs)

-- each flow belongs to one bucket
pub highs-distinct :
    (rs : List ℕ)
    → All (λ r. r < 2 ^ 32) rs
    → sum_below flow_num (λ l. distinct (highs l rs)) ≡ distinct rs
highs-distinct rs words =
    Partition.marks-distinct index_low index_high flow_num (λ r. r < 2 ^ 32) halves-apart rs
      (All-of index_low-lt rs) words

-- the sums that the reports compute over all buckets
pub table-counts :
    (rs : List ℕ)
    → All (λ r. r < 2 ^ 32) rs
    → length rs < u32_mod
    → (sum_below flow_num (λ l. distinct (highs l rs)) % u64_mod ≡ distinct rs)
      × (sum_below flow_num (λ l. length (highs l rs)) % u64_mod ≡ length rs)
table-counts rs words small =
    let flows = highs-distinct rs words in
    (omega (arith, Partition.distinct-le_length rs), omega (arith, highs-total rs))
