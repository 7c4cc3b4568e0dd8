-- ===== src/Lthread/Spawn/Ready.antt =====
-- What holds whenever a counting thread of lthread/main.c starts.
use native.Mathlib.Decide.{ℕ_discrete}
use flo_watcher_dpdk.Common.{
  ℕ, ◌*◌, zero, suc, ◌+◌, ◌≤◌, ◌<◌, ◌≡◌, refl, sym, ap, ◌∙◌, ◌≢◌, Bool, true, false, Array, update,
  update_self, update_ne, arith, sum_below, sum_below-change, ltb, Bool-cases, inl, inr,
}
use flo_watcher_dpdk.Lthread.Spawn.{
  Threads, Step, create_rx, start_rx, count_rx, stop_waiting, create_tx, start_tx, Reach, start,
  later,
}

abbrev pub flag : Bool → ℕ
flag true = 1
flag false = 0

-- how many of the first `n` flags are set
unfoldable pub set_below : ℕ → Array Bool → ℕ
set_below n a = sum_below n (λ i. flag (a i))

flag-le : (b : Bool) → flag b ≤ 1
flag-le true = omega arith
flag-le false = omega arith

set_below-le : (n : ℕ) (a : Array Bool) → set_below n a ≤ n
unfolding set_below sum_below
set_below-le zero a = omega arith
set_below-le (suc n) a = omega (arith, set_below-le n a, flag-le (a n))

set-of_flag : (b : Bool) → 1 ≤ flag b → b ≡ true
set-of_flag true h = refl
set-of_flag false h = absurd (omega arith)

-- as many flags as places: each is set
set_below-all : (n : ℕ) (a : Array Bool) → n ≤ set_below n a → (i : ℕ) → i < n → a i ≡ true
unfolding set_below sum_below
set_below-all zero a h i lt = absurd (omega arith)
set_below-all (suc n) a h i lt = elim (ℕ_discrete i n) [
  | yes last ↦ rw last (set-of_flag (a n) (omega (arith, set_below-le n a)))
  | no before ↦ set_below-all n a (omega (arith, flag-le (a n))) i (omega arith)
]

set_below-update :
    (n : ℕ) (a : Array Bool) (i : ℕ)
    → i < n
    → a i ≡ false
    → set_below n (update a i true) ≡ set_below n a + 1
unfolding set_below
set_below-update n a i lt off = omega (
  arith,
  sum_below-change n i (λ j. flag (a j)) (λ j. flag (update a i true j)) lt
      (λ j d. ap flag (update_ne a i true j d)),
  ap flag (update_self a i true),
  ap flag off,
)

-- fewer: one is not set
set_below-missing : (n : ℕ) (a : Array Bool) → set_below n a < n → (i : ℕ) × (i < n) × (a i ≡ false)
unfolding set_below sum_below
set_below-missing zero a h = absurd (omega arith)
set_below-missing (suc n) a h = elim (Bool-cases (a n)) [
  | inr off ↦ (n, omega arith, off)
  | inl on ↦
      let (i, lt, off) = set_below-missing n a (omega (arith, ap flag on)) in (i, omega arith, off)
]

-- what every reachable state satisfies
record Inv (n_rx_thread n_tx_thread : ℕ) (s : Threads) : Type 0 where
  pub within : s.created_rx ≤ n_rx_thread
  pub bounded : s.created_tx ≤ n_tx_thread
  pub counts : s.rx_counter ≡ set_below n_rx_thread s.counted
  pub started : (i : ℕ) → s.initialised i ≡ true → i < s.created_rx
  pub ready : (i : ℕ) → s.counted i ≡ true → s.initialised i ≡ true
  pub complete : s.awaited ≡ true → n_rx_thread ≤ s.rx_counter
  pub guarded : s.created_tx ≢ 0 → s.awaited ≡ true
  pub created : (j : ℕ) → s.reading j ≡ true → j < s.created_tx

-- how far the start is
abbrev pub progress : ℕ → Threads → ℕ
progress n s =
    s.created_rx + set_below n s.initialised + s.rx_counter + flag s.awaited + s.created_tx

clash : false ≡ true → ⊥
clash e = cc

unset : (n : ℕ) → set_below n (λ i. false) ≡ 0
unfolding set_below sum_below
unset zero = refl
unset (suc n) = omega (arith, unset n)

module _ {n_rx_thread n_tx_thread : ℕ} where
  Step-Inv :
      {s t : Threads}
      → Step n_rx_thread n_tx_thread s t
      → Inv n_rx_thread n_tx_thread s
      → Inv n_rx_thread n_tx_thread t
  Step-Inv {s} (create_rx lt) v = record {
    within = omega arith;
    bounded = v.bounded;
    counts = v.counts;
    started = λ i on. omega (arith, v.started i on);
    ready = v.ready;
    complete = v.complete;
    guarded = v.guarded;
    created = v.created;
  }
  Step-Inv {s} (start_rx i lt off) v = record {
    within = v.within;
    bounded = v.bounded;
    counts = v.counts;
    started = λ k on. elim (ℕ_discrete k i) [
      | yes own ↦ rw own lt
      | no other ↦ v.started k (sym (update_ne s.initialised i true k other) ∙ on)
    ];
    ready = λ k on. elim (ℕ_discrete k i) [
      | yes own ↦ rw own (update_self s.initialised i true)
      | no other ↦ update_ne s.initialised i true k other ∙ v.ready k on
    ];
    complete = v.complete;
    guarded = v.guarded;
    created = v.created;
  }
  Step-Inv {s} (count_rx i on off) v = record {
    within = v.within;
    bounded = v.bounded;
    counts = omega (
      arith,
      v.counts,
      set_below-update n_rx_thread s.counted i (omega (arith, v.started i on, v.within)) off,
    );
    started = v.started;
    ready = λ k h. elim (ℕ_discrete k i) [
      | yes own ↦ rw own on
      | no other ↦ v.ready k (sym (update_ne s.counted i true k other) ∙ h)
    ];
    complete = λ w. omega (arith, v.complete w);
    guarded = v.guarded;
    created = v.created;
  }
  Step-Inv {s} (stop_waiting e le) v = record {
    within = v.within;
    bounded = v.bounded;
    counts = v.counts;
    started = v.started;
    ready = v.ready;
    complete = λ w. le;
    guarded = λ z. refl;
    created = v.created;
  }
  Step-Inv {s} (create_tx on lt) v = record {
    within = v.within;
    bounded = omega arith;
    counts = v.counts;
    started = v.started;
    ready = v.ready;
    complete = v.complete;
    guarded = λ z. on;
    created = λ j r. omega (arith, v.created j r);
  }
  Step-Inv {s} (start_tx j lt) v = record {
    within = v.within;
    bounded = v.bounded;
    counts = v.counts;
    started = v.started;
    ready = v.ready;
    complete = v.complete;
    guarded = v.guarded;
    created = λ i r. elim (ℕ_discrete i j) [
      | yes own ↦ rw own lt
      | no other ↦ v.created i (sym (update_ne s.reading j true i other) ∙ r)
    ];
  }

  Reach-Inv : {s : Threads} → Reach n_rx_thread n_tx_thread s → Inv n_rx_thread n_tx_thread s
  Reach-Inv start = record {
    within = omega arith;
    bounded = omega arith;
    counts = sym (unset n_rx_thread);
    started = λ i h. absurd (clash h);
    ready = λ i h. absurd (clash h);
    complete = λ w. absurd (clash w);
    guarded = λ z. absurd (z refl);
    created = λ j r. absurd (clash r);
  }
  Reach-Inv (later r st) = Step-Inv st (Reach-Inv r)

  -- the start gets only so far
  pub progress-le :
      {s : Threads}
      → Reach n_rx_thread n_tx_thread s
      → (progress n_rx_thread s ≤ 3 * n_rx_thread + 1 + n_tx_thread) × (s.created_tx ≤ n_tx_thread)
  progress-le {s} r =
      let v = Reach-Inv r in
      (
        omega (
          arith,
          v.within,
          v.bounded,
          v.counts,
          set_below-le n_rx_thread s.initialised,
          set_below-le n_rx_thread s.counted,
          flag-le s.awaited,
        ),
        v.bounded,
      )

  -- In every reachable state, if a counting thread has read its condition variable then every receive
  -- thread has initialised its own.
  pub reading-initialised :
      {s : Threads} (j i : ℕ)
      → Reach n_rx_thread n_tx_thread s
      → s.reading j ≡ true
      → i < n_rx_thread
      → s.initialised i ≡ true
  reading-initialised {s} j i r on lt =
      let v = Reach-Inv r in
      let some : s.created_tx ≢ 0 = λ z. absurd (omega (arith, v.created j on)) in
      v.ready i (
        set_below-all n_rx_thread s.counted (omega (arith, v.complete (v.guarded some), v.counts)) i
          lt)

  -- The start does not hang: in every reachable state in which a counting thread is missing, a step is
  -- possible that gets further.
  pub spawn-progress :
      {s : Threads}
      → Reach n_rx_thread n_tx_thread s
      → s.created_tx < n_tx_thread
      → (t : Threads) × Step n_rx_thread n_tx_thread s t
        × (progress n_rx_thread s < progress n_rx_thread t)
  spawn-progress {s} r more =
      let v = Reach-Inv r in
      elim (Bool-cases (ltb s.created_rx n_rx_thread)) [
        | inl missing ↦ (_, create_rx (ground arith), omega arith)
        | inr all ↦ elim (Bool-cases (ltb s.rx_counter n_rx_thread)) [
          | inl fewer ↦
              let (i, lt, off) =
                set_below-missing n_rx_thread s.counted (ground (arith, v.counts)) in
              elim (Bool-cases (s.initialised i)) [
                | inl ready ↦ (_, count_rx i ready off, omega arith)
                | inr cold ↦ (
                  _,
                  start_rx i (ground arith) cold,
                  omega (arith, set_below-update n_rx_thread s.initialised i lt cold),
                )
              ]
          | inr counted ↦ elim (Bool-cases s.awaited) [
            | inl on ↦ (_, create_tx on more, omega arith)
            | inr off ↦ (
              _,
              stop_waiting (ground (arith, v.within)) (ground arith),
              omega (arith, ap flag off),
            )
          ]
        ]
      ]
