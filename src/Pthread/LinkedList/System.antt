-- ===== src/Pthread/LinkedList/System.antt =====
-- A session of pthread/main.c in the LINKED_LIST build: `main` sets the threads and the chains up, all
-- threads run, and `handler` reports.
use flo_watcher_dpdk.Pthread.Startup.Wired.{Wired}
use flo_watcher_dpdk.Ring.{Ring}
