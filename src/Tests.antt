-- ===== src/Tests.antt =====
-- Concrete packets, tables and arithmetic for the tests: heights and averages are whole numbers here.
use flo_watcher_dpdk.Common.{ℕ, ◌/◌, ◌+◌, List, [], ◌∷◌, Array, true, false, if◌then◌else◌, leb}
use flo_watcher_dpdk.Common.Int.{ℤ, pos, negsuc, ◌+ℤ◌, ◌-ℤ◌, ◌*ℤ◌, pos_part, neg_part, ltb_ℤ, leb_ℤ}
use flo_watcher_dpdk.Double.{Arithmetic}
use flo_watcher_dpdk.Dpdk.{Mbuf}
use flo_watcher_dpdk.Outcome.{Calloc}
use flo_watcher_dpdk.RunToCompletion.{Build}
pub mod Pthread
pub mod PthreadChains
pub mod Lthread
pub mod LthreadRun
pub mod LthreadStart
pub mod Reports
pub mod RunToCompletion
pub mod System
pub mod Tools
pub mod Quantile

instance abbrev pub integers : Arithmetic ℤ
integers = record {
  of_u32 = pos;
  of_u64 = pos;
  of_i64 = pos;
  of_int = λ z. z;
  to_int = λ z. z;
  const_p = pos 1;
  single = λ z. z;
  add = ◌+ℤ◌;
  sub = ◌-ℤ◌;
  mul = ◌*ℤ◌;
  div = λ a b. pos (pos_part a / pos_part b);
  sqrt = λ z. z;
  lt = ltb_ℤ;
  le = leb_ℤ;
}

-- memory that is never refused
abbrev pub plenty : Calloc
plenty n = true

abbrev pub everything : Build
everything = record { flow_level = true; ipg = true; quantile = true }

-- three flows of bucket 7 and one of bucket 9
abbrev pub packets : List (List Mbuf)
packets =
    (record { addr = 1; rss = 0x10007 } ∷ record { addr = 2; rss = 0x20007 } ∷ [])
    ∷ (record { addr = 3; rss = 0x30007 }
        ∷ record { addr = 4; rss = 0x10007 }
        ∷ record { addr = 5; rss = 0x10009 }
        ∷ [])
    ∷ []
