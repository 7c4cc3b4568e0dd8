-- ===== src/Ring.antt =====
-- The DPDK ring between a receive thread and a counting thread of pthread and lthread, as an
-- interface: `rte_ring` is not code of this repository. The laws are what its documentation says of a burst: it puts in the first
-- few of the objects and returns how many, or takes out the oldest few.
use Prim.Native.Nat.{min}
use flo_watcher_dpdk.Common.{ℕ, ◌≤◌, ◌≡◌, List, ◌++◌, length, take}
use flo_watcher_dpdk.Dpdk.{Mbuf}

pub record Ring (R : Type 0) : Type 0 where
  pub enqueue_burst : R → List Mbuf → ℕ × R
  pub dequeue_burst : R → ℕ → List Mbuf × R
  pub contents : R → List Mbuf

-- first in, first out
pub record IsFifo {R : Type 0} (ring : Ring R) : Type 0 where
  pub enqueue_takes :
      (r : R) (bufs : List Mbuf)
      → let e = ring.enqueue_burst r bufs in
        (e.0 ≤ length bufs) × (ring.contents e.1 ≡ ring.contents r ++ take e.0 bufs)
  pub dequeue_gives :
      (r : R) (n : ℕ)
      → let d = ring.dequeue_burst r n in
        (length d.0 ≤ n) × (ring.contents r ≡ d.0 ++ ring.contents d.1)

-- a burst takes out as many as there are, up to the number asked for
abbrev pub Greedy : {R : Type 0} → Ring R → Type 0
Greedy {R} ring =
    (r : R) (n : ℕ) → length (ring.dequeue_burst r n).0 ≡ min n (length (ring.contents r))
