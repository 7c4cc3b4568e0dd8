-- ===== src/Pthread/System/Session.antt =====
-- A session of pthread/main.c: `main` sets the threads up, they run, and `handler` reports.
use flo_watcher_dpdk.Pthread.Startup.Wired.{Wired}
use flo_watcher_dpdk.Pthread.System.Quiet.{Quiet}
use flo_watcher_dpdk.Ring.{Ring}
