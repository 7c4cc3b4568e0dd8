-- ===== src/Dpdk.antt =====
-- What the program is given by DPDK, which is not part of the repository: packet buffers as the
-- poll-mode driver hands them over.
use Prim.Native.Nat.{ℕ}

-- `struct rte_mbuf`: where the buffer lies, and the RSS hash that the NIC computed (`hash.rss`)
pub record Mbuf : Type 0 where
  pub addr : ℕ
  pub rss : ℕ
