-- ===== src/Lthread/Options.antt =====
-- The command line of lthread/main.c: `parse_portmask`, `parse_rx_config`, `parse_tx_config` and
-- `parse_args`. The groups of numbers are read as in pthread/main.c. What `getopt_long` finds is a list
-- of options with their arguments.
use flo_watcher_dpdk.Common.{
  ℕ, Bool, true, false, not, ◌||◌, none, List, [], ◌∷◌, ◌==◌, if◌then◌else◌, u32_mod,
}
use flo_watcher_dpdk.Common.Int.{ℤ, pos, negsuc}
use flo_watcher_dpdk.Common.Text.{to_int, is_nil, strtoul}
use flo_watcher_dpdk.Outcome.{Outcome, ok, failed, exit, fault}
use flo_watcher_dpdk.Pthread.{RxThreadParams, TxThreadParams}
use flo_watcher_dpdk.Pthread.Options.{Strsplit, rx_entry, tx_entry, parse_groups, unsigned}

unfoldable pub parse_portmask : List ℕ → ℤ
parse_portmask portmask =
    let scan = strtoul 16 portmask in
    if is_nil portmask || not (is_nil scan.rest)
    then negsuc 0
    else if scan.value == 0
    then negsuc 0
    else to_int scan.value

module _ (strsplit : Strsplit) where
  unfoldable pub parse_rx_config : List ℕ → Outcome (List RxThreadParams)
  parse_rx_config q_arg = parse_groups strsplit 4 rx_entry none [] q_arg

  unfoldable pub parse_tx_config : List ℕ → Outcome (List TxThreadParams)
  parse_tx_config q_arg = parse_groups strsplit 2 tx_entry none [] q_arg

-- the options that `getopt_long` knows, and any other
pub data Opt : Type 0 where
  portmask : List ℕ → Opt
  promiscuous : Opt
  rx : List ℕ → Opt
  tx : List ℕ → Opt
  no_numa : Opt
  enable_jumbo : Opt
  write_file : Opt
  unknown : Opt

-- the global variables that the options set
pub record Config : Type 0 where
  pub enabled_port_mask : ℕ
  pub promiscuous_on : Bool
  pub numa_on : Bool
  pub write : Bool
  pub rx_thread_params : List RxThreadParams
  pub tx_thread_params : List TxThreadParams

abbrev rx_default : ℕ → ℕ → ℕ → ℕ → RxThreadParams
rx_default port queue lcore thread = record {
  port_id = port;
  queue_id = queue;
  lcore_id = lcore;
  thread_id = thread;
}

-- their initial values
abbrev pub default_config : Config
default_config = record {
  enabled_port_mask = 0;
  promiscuous_on = false;
  numa_on = true;
  write = false;
  rx_thread_params =
      rx_default 0 0 2 0
      ∷ rx_default 0 1 2 1
      ∷ rx_default 0 2 2 2
      ∷ rx_default 1 0 2 3
      ∷ rx_default 1 1 2 4
      ∷ rx_default 1 2 2 5
      ∷ rx_default 2 0 2 6
      ∷ rx_default 3 0 3 7
      ∷ rx_default 3 1 3 8
      ∷ [];
  tx_thread_params =
      record { lcore_id = 4; thread_id = 0 }
      ∷ record { lcore_id = 5; thread_id = 1 }
      ∷ record { lcore_id = 6; thread_id = 2 }
      ∷ [];
}

-- a round of the loop goes on, or returns from `parse_args`
pub data Round : Type 0 where
  continues : Config → Round
  returns : ℤ → Config → Round

-- `EXIT_FAILURE`
abbrev pub exit_failure : ℤ
exit_failure = pos 1

-- if (ret) { ...; return -1; }: `main` ends then, and the part of a refused table that was read before
-- the error counts as not read
abbrev pub or_return : {A : Type 0} → (A → Config) → Config → Outcome A → Round
or_return f cfg (ok a) = continues (f a)
or_return f cfg failed = returns (negsuc 0) cfg
or_return f cfg exit = returns (negsuc 0) cfg
or_return f cfg fault = returns (negsuc 0) cfg

module _ (strsplit : Strsplit) where
  unfoldable pub apply_option : Opt → Config → Round
  apply_option (portmask optarg) cfg =
      let mask = unsigned u32_mod (parse_portmask optarg) in
      let cfg' = record cfg { enabled_port_mask = mask } in
      if mask == 0 then returns exit_failure cfg' else continues cfg'
  apply_option promiscuous cfg = continues (record cfg { promiscuous_on = true })
  apply_option (rx optarg) cfg =
      or_return (λ ps. record cfg { rx_thread_params = ps }) cfg (parse_rx_config strsplit optarg)
  apply_option (tx optarg) cfg =
      or_return (λ ps. record cfg { tx_thread_params = ps }) cfg (parse_tx_config strsplit optarg)
  apply_option no_numa cfg = continues (record cfg { numa_on = false })
  apply_option enable_jumbo cfg = continues cfg
  apply_option write_file cfg = continues (record cfg { write = true })
  apply_option unknown cfg = returns exit_failure cfg

  -- `parse_args`: what it returns, and what it leaves in the variables; `consumed` is `optind - 1`
  -- behind the last option
  unfoldable pub parse_args : ℕ → List Opt → Config → ℤ × Config
  parse_args consumed [] cfg = (pos consumed, cfg)
  parse_args consumed (opt ∷ opts) cfg = elim (apply_option opt cfg) [
    | continues cfg' ↦ parse_args consumed opts cfg'
    | returns ret cfg' ↦ (ret, cfg')
  ]
