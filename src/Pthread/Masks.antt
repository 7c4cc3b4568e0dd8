-- ===== src/Pthread/Masks.antt =====
-- The split of the RSS hash in pthread/main.c, by masks that `main` computes from FLOW_NUM.
use Prim.Native.Nat.{bit_and, bit_or}
use flo_watcher_dpdk.Common.{
  ℕ, zero, suc, ◌+◌, ◌*◌, ◌/◌, ◌%◌, ◌^◌, ◌<◌, ◌≡◌, arith, u32_mod, bit_and-0xffff,
  bit_and-0xffff0000, refl,
}
use flo_watcher_dpdk.RunToCompletion.{index_low, index_high}

-- while (i < bits) { result |= (1 << i); i++; }, in the rounds that are left
unfoldable pub result_loop : ℕ → ℕ → ℕ → ℕ
result_loop zero i result = result
result_loop (suc rounds) i result = result_loop rounds (i + 1) (bit_or result (2 ^ i))

-- `result`, `b1` and `bits`
pub record Masks : Type 0 where
  pub result : ℕ
  pub b1 : ℕ
  pub bits : ℕ

-- `main`, given what log (FLOW_NUM) / log (2) gives
unfoldable pub masks : ℕ → Masks
masks bits =
    let result = result_loop bits 0 0 in
    record { result = result; b1 = (result * 2 ^ bits) % u32_mod; bits = bits }

-- rss & result, and (rss & b1) >> bits
unfoldable pub masked_low : Masks → ℕ → ℕ
masked_low k rss = bit_and rss k.result

unfoldable pub masked_high : Masks → ℕ → ℕ
masked_high k rss = bit_and rss k.b1 / 2 ^ k.bits

-- With 16 bits, the masks split a 32-bit hash into its remainder and its quotient by 65536: both fit
-- 16 bits, and together they give the hash back.
masks-halves :
    (rss : ℕ)
    → rss < 2 ^ 32
    → let low = masked_low (masks 16) rss in
      let high = masked_high (masks 16) rss in
      (low ≡ rss % 65536) × (high ≡ rss / 65536) × (high < 65536) × (high * 65536 + low ≡ rss)
unfolding masks result_loop masked_low masked_high
masks-halves rss h = omega (arith, bit_and-0xffff rss, bit_and-0xffff0000 rss h)

-- with 16 bits these are the two halves that run_to_completion takes
pub masked_low-index : masked_low (masks 16) ≡ index_low
unfolding masks result_loop masked_low index_low
masked_low-index = refl

pub masked_high-index : masked_high (masks 16) ≡ index_high
unfolding masks result_loop masked_high index_high
masked_high-index = refl
