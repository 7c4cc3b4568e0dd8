-- ===== src/Buckets.antt =====
-- Tables of buckets: which packets belong to a bucket, and what it means that every bucket holds the
-- tally of its packets. A program gives the two parts of a hash (`low`, the bucket, and `high`, the
-- mark), the view of a bucket as a tally, and what else it keeps of a bucket.
pub mod Addrs
pub mod Partition
use flo_watcher_dpdk.Common.{
  ℕ, ◌+◌, ◌<◌, ◌≡◌, ◌≢◌, ◌∙◌, ap, sym, List, [], ◌∷◌, arith, All, length, Array, update, ◌==◌,
  if◌then◌else◌, Bool-cases, inl, inr,
}
use flo_watcher_dpdk.Common.History.{Nonzero}
use flo_watcher_dpdk.Dpdk.{Mbuf}
use flo_watcher_dpdk.Tally.{Tally, bump, bump_all}

module _ (low high : ℕ → ℕ) where
  -- the marks of the hashes that belong to bucket `l`
  unfoldable pub marks : ℕ → List ℕ → List ℕ
  marks l [] = []
  marks l (r ∷ rs) = if l == low r then high r ∷ marks l rs else marks l rs

  -- no hash has the mark 0, which the tables take for a free slot
  abbrev pub Marked : List ℕ → Type 0
  Marked = All (λ r. high r ≢ 0)

  abbrev pub MarkedBurst : List Mbuf → Type 0
  MarkedBurst = All (λ m. high m.rss ≢ 0)

  pub marks-Nonzero : (l : ℕ) (rs : List ℕ) → Marked rs → Nonzero (marks l rs)
  unfolding marks
  marks-Nonzero l [] m = tt
  marks-Nonzero l (r ∷ rs) m = ground (arith, marks-Nonzero l rs m.1)

-- the history after a burst and after several, most recent packet first
unfoldable pub after : List Mbuf → List ℕ → List ℕ
after [] rs = rs
after (m ∷ ms) rs = after ms (m.rss ∷ rs)

unfoldable pub after_all : List (List Mbuf) → List ℕ → List ℕ
after_all [] rs = rs
after_all (ms ∷ rest) rs = after_all rest (after ms rs)

-- what holds of every packet of a run holds of its history
module _ (P : ℕ → Type 0) where
  pub after-All :
      (ms : List Mbuf) (rs : List ℕ) → All (λ m. P m.rss) ms → All P rs → All P (after ms rs)
  unfolding after
  after-All [] rs h k = k
  after-All (x ∷ ms) rs h k = after-All ms (x.rss ∷ rs) h.1 (h.0, k)

  pub after_all-All :
      (bursts : List (List Mbuf)) (rs : List ℕ)
      → All (All (λ m. P m.rss)) bursts
      → All P rs
      → All P (after_all bursts rs)
  unfolding after_all
  after_all-All [] rs h k = k
  after_all-All (ms ∷ rest) rs h k = after_all-All rest (after ms rs) h.1 (after-All ms rs h.0 k)

-- the buffers of a burst, and the number of packets in several bursts
unfoldable pub addrs : List Mbuf → List ℕ
addrs [] = []
addrs (m ∷ ms) = m.addr ∷ addrs ms

unfoldable pub total : List (List Mbuf) → ℕ
total [] = 0
total (ms ∷ rest) = length ms + total rest

-- what the table has of bucket `l`: the tally, under counters that wrap at `m`, of its part of the
-- history on top of `init`
abbrev pub Holds :
    {B : Type 0}
    → (B → Tally)
    → (B → Type 0)
    → (ℕ → ℕ)
    → (ℕ → ℕ)
    → ℕ
    → Tally
    → List ℕ
    → ℕ
    → B
    → Type 0
Holds view Good low high m init rs l b = (view b ≡ bump_all m (marks low high l rs) init) × Good b

module _ {B : Type 0} (view : B → Tally) (Good : B → Type 0) (low high : ℕ → ℕ) (width m : ℕ)
    (init : Tally) where
  abbrev pub Tallied : List ℕ → Array B → Type 0
  Tallied rs t = (l : ℕ) → l < width → Holds view Good low high m init rs l (t l)

  -- one packet
  pub update-Tallied :
      (r : ℕ) (rs : List ℕ) (t : Array B) (b : B)
      → low r < width
      → Tallied rs t
      → view b ≡ bump m (high r) (view (t (low r)))
      → Good b
      → Tallied (r ∷ rs) (update t (low r) b)
  unfolding update marks bump_all
  update-Tallied r rs t b small k e g j lt = elim (Bool-cases (j == low r)) [
    | inl own ↦
        let here : j ≡ low r = ground arith in
        let old =
          (k (low r) small).0 ∙ ap (λ i. bump_all m (marks low high i rs) init) (sym here) in
        rw own (e ∙ ap (λ t. bump m (high r) t) old, g)
    | inr other ↦ rw other (k j lt)
  ]
