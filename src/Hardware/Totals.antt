-- ===== src/Hardware/Totals.antt =====
-- What the measurement of hardware/main.c adds up.
use mathlib.Core.List.{append_assoc, append-nil}
use flo_watcher_dpdk.Common.{
  ℕ, ◌+◌, ◌-◌, ◌%◌, ◌≤◌, ◌<◌, ◌≡◌, refl, sym, ap, ◌∙◌, List, [], ◌∷◌, ◌++◌, arith, All, length,
  length-append, u64_mod,
}
use flo_watcher_dpdk.Hardware.{Timed, State, measure, lcore_main}

-- the packets of several bursts
unfoldable pub joined : List (List Timed) → List Timed
joined [] = []
joined (ts ∷ rest) = ts ++ joined rest

-- the nanoseconds that the accesses take, and the buffers
unfoldable pub elapsed : List Timed → ℕ
elapsed [] = 0
elapsed (t ∷ ts) = (t.stop - t.start) + elapsed ts

unfoldable pub buffers_of : List Timed → List ℕ
buffers_of [] = []
buffers_of (t ∷ ts) = t.mbuf.addr ∷ buffers_of ts

-- the clock does not go back, and its nanoseconds fit 64 bits
abbrev pub Forward : List Timed → Type 0
Forward = All (λ t. (t.start ≤ t.stop) × (t.stop < u64_mod))

-- what the packets `ts` add
abbrev pub Adds : List Timed → State → State → Type 0
Adds ts s s' =
    (s'.diff ≡ (s.diff + elapsed ts) % u64_mod)
    × (s'.diff_t ≡ (s.diff_t + length ts) % u64_mod)
    × (s'.freed ≡ s.freed ++ buffers_of ts)

elapsed-append : (ts us : List Timed) → elapsed (ts ++ us) ≡ elapsed ts + elapsed us
unfolding elapsed
elapsed-append [] us = omega arith
elapsed-append (t ∷ ts) us = omega (arith, elapsed-append ts us)

buffers_of-append : (ts us : List Timed) → buffers_of (ts ++ us) ≡ buffers_of ts ++ buffers_of us
unfolding buffers_of
buffers_of-append [] us = refl
buffers_of-append (t ∷ ts) us = ap (λ xs. t.mbuf.addr ∷ xs) (buffers_of-append ts us)

measure-Adds :
    (ts : List Timed) (s : State)
    → Forward ts
    → s.diff < u64_mod
    → s.diff_t < u64_mod
    → Adds ts s (measure ts s)
unfolding measure elapsed buffers_of
measure-Adds [] s h p q = (omega arith, omega arith, sym (append-nil s.freed))
measure-Adds (t ∷ ts) s h p q =
    let (diff, times, freed) = measure-Adds ts _ h.1 (omega arith) (omega arith) in
    (
      omega (arith, diff, h.0),
      omega (arith, times),
      freed ∙ append_assoc s.freed (t.mbuf.addr ∷ []) (buffers_of ts),
    )

-- After any bursts `diff` has the nanoseconds of all accesses and `diff_t` their number, both modulo
-- 2 ^ 64, and every buffer is freed, once and in order. The clock does not go back.
lcore_main-Adds :
    (bursts : List (List Timed)) (s : State)
    → All Forward bursts
    → s.diff < u64_mod
    → s.diff_t < u64_mod
    → Adds (joined bursts) s (lcore_main bursts s)
unfolding lcore_main joined elapsed buffers_of
lcore_main-Adds [] s h p q = (omega arith, omega arith, sym (append-nil s.freed))
lcore_main-Adds (ts ∷ rest) s h p q =
    let (diff, times, freed) = measure-Adds ts s h.0 p q in
    let (diff', times', freed') =
      lcore_main-Adds rest (measure ts s) h.1 (omega (arith, diff)) (omega (arith, times)) in
    (
      omega (arith, diff, diff', elapsed-append ts (joined rest)),
      omega (arith, times, times', length-append ts (joined rest)),
      freed'
          ∙ ap (λ xs. xs ++ buffers_of (joined rest)) freed
          ∙ append_assoc s.freed (buffers_of ts) (buffers_of (joined rest))
          ∙ ap (λ xs. s.freed ++ xs) (sym (buffers_of-append ts (joined rest))),
    )
