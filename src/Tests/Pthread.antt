-- ===== src/Tests/Pthread.antt =====
-- The theorems about pthread/main.c at a small configuration and a ring that holds one packet.
use flo_watcher_dpdk.Common.{
  ℕ, zero, suc, ◌≤◌, ◌≡◌, refl, ap, sym, true, List, [], ◌∷◌, ◌++◌, arith, length, take,
}
use mathlib.Core.List.{append-nil}
use flo_watcher_dpdk.Common.Int.{ℤ, pos}
use flo_watcher_dpdk.Common.Text.{numeral, decimal_from}
use flo_watcher_dpdk.Dpdk.{Mbuf}
use flo_watcher_dpdk.Outcome.{Ensures}
use flo_watcher_dpdk.Pthread.{flow_num}
use flo_watcher_dpdk.Pthread.DoubleHash.{PktCount, init_table}
use flo_watcher_dpdk.Pthread.Masks.{masks}
use flo_watcher_dpdk.Pthread.Options
use flo_watcher_dpdk.Pthread.Options.Bounds.{IsValid, parse_rx_queue_nb-numeral, parse_args-IsValid}
use flo_watcher_dpdk.Pthread.Pipeline.{State, Event, receive, serve, Setting}
use flo_watcher_dpdk.Ring.{Ring, IsFifo}
use flo_watcher_dpdk.Tests.{integers}

-- a ring that holds one packet, and gives nothing back when it is asked for none
abbrev put : List Mbuf → List Mbuf → ℕ × List Mbuf
put [] [] = (0, [])
put [] (m ∷ ms) = (1, m ∷ [])
put (x ∷ r) ms = (0, x ∷ r)

abbrev get : List Mbuf → ℕ → List Mbuf × List Mbuf
get [] n = ([], [])
get (m ∷ r) zero = ([], m ∷ r)
get (m ∷ r) (suc n) = (m ∷ [], r)

abbrev pub single : Ring (List Mbuf)
single = record { enqueue_burst = put; dequeue_burst = get; contents = λ r. r }

put_fifo :
    (r ms : List Mbuf) → ((put r ms).0 ≤ length ms) × ((put r ms).1 ≡ r ++ take (put r ms).0 ms)
put_fifo [] [] = (omega arith, refl)
put_fifo [] (m ∷ ms) = (omega arith, refl)
put_fifo (x ∷ r) ms = (omega arith, ap (λ t. x ∷ t) (sym (append-nil r)))

get_fifo : (r : List Mbuf) (n : ℕ) → (length (get r n).0 ≤ n) × (r ≡ (get r n).0 ++ (get r n).1)
get_fifo [] n = (omega arith, refl)
get_fifo (m ∷ r) zero = (omega arith, refl)
get_fifo (m ∷ r) (suc n) = (omega arith, refl)

pub single-IsFifo : IsFifo single
single-IsFifo = record { enqueue_takes = put_fifo; dequeue_gives = get_fifo }

abbrev setting : Setting
setting = record { ipg = true; masks = masks 16; burst_size = 4; n_rx_thread = 1; q = 0 }

abbrev pub blank : PktCount ℤ
blank = record {
  hi_f1 = 5;
  hi_f2 = 5;
  ctr0 = 5;
  ctr1 = 5;
  ctr2 = 5;
  ipg0 = 5;
  ipg1 = 5;
  avg0 = pos 5;
  avg1 = pos 5;
  std_dev0 = pos 0;
  std_dev1 = pos 0;
}

abbrev begin : State (List Mbuf) ℤ
begin = record {
  ring = [];
  pkt_ctr = init_table true flow_num (λ l. blank);
  g_ctr = λ q. 0;
  freed = [];
}

-- two packets arrive and one fits
abbrev events : List Event
events =
    receive (record { addr = 1; rss = 0x10007 } ∷ record { addr = 2; rss = 0x20007 } ∷ [])
    ∷ serve
    ∷ []

parse_rx_queue_nb-numeral_example : Options.parse_rx_queue_nb (numeral (2 ∷ 0 ∷ 0 ∷ [])) ≡ pos 128
unfolding decimal_from
parse_rx_queue_nb-numeral_example =
    parse_rx_queue_nb-numeral 2 (0 ∷ 0 ∷ []) (omega arith) (omega arith)

-- every string is taken for four tokens
abbrev pub four : Options.Strsplit
four s n = s ∷ s ∷ s ∷ s ∷ []

default-IsValid : IsValid Options.default_config
default-IsValid = ground arith

parse_args-IsValid_example : Ensures IsValid (
    Options.parse_args four
      (Options.rx_conf (b'(' ∷ b'7' ∷ b')' ∷ []) ∷ Options.nb_rxq (b'9' ∷ []) ∷ [])
      Options.default_config)
parse_args-IsValid_example =
    parse_args-IsValid four
      (Options.rx_conf (b'(' ∷ b'7' ∷ b')' ∷ []) ∷ Options.nb_rxq (b'9' ∷ []) ∷ [])
      Options.default_config default-IsValid
