-- ===== src/Toeplitz.antt =====
-- toeplitz/main.c: `lcore_hello` computes a hash of random packet headers, over and over, and measures
-- its speed (INC) or how evenly it spreads (RAND). The hashes of DPDK and the vendored ones are
-- parameters, and so is `rand`; the time is not modelled.
pub mod Loads
use Prim.Native.Nat.{bit_xor}
use flo_watcher_dpdk.Common.{
  ℕ, zero, suc, ◌+◌, ◌%◌, ◌^◌, Bool, true, false, not, ◌==◌, if◌then◌else◌, u16_mod, u32_mod, add64,
}
use flo_watcher_dpdk.Common.Int.{ℤ, pos, negsuc, is_zero}
use flo_watcher_dpdk.Common.Text.{to_int}

-- `struct ipv4_5tuple`
pub record Ipv45tuple : Type 0 where
  pub proto : ℕ
  pub src_addr : ℕ
  pub dst_addr : ℕ
  pub sport : ℕ
  pub dport : ℕ

-- the macros that choose the hash: TOE or TOE_BE, ADD, XOR, and MURMUR or BOB, of which the word that
-- the test looks at is given
pub data Hash : Type 0 where
  toeplitz : (Ipv45tuple → ℕ) → Hash
  add : Hash
  xor : Hash
  vendored : (Ipv45tuple → ℕ) → Hash

-- INC and RAND
pub data Mode : Type 0 where
  inc : Mode
  rand_loads : Mode

-- the tuple, `ib`, `ctr` and the calls of `rand`
pub record State : Type 0 where
  pub tuple : Ipv45tuple
  pub ib0 : ℕ
  pub ib1 : ℕ
  pub ctr : ℕ
  pub calls : ℕ

-- the sum and the exclusive or of the fields, as 32-bit words
unfoldable pub sum_hash : Ipv45tuple → ℕ
sum_hash t = (t.proto + t.src_addr + t.dst_addr + t.sport + t.dport) % u32_mod

unfoldable pub xor_hash : Ipv45tuple → ℕ
xor_hash t = bit_xor (bit_xor (bit_xor (bit_xor t.proto t.src_addr) t.dst_addr) t.sport) t.dport

-- z % 2 in C
unfoldable pub remainder_2 : ℤ → ℤ
remainder_2 (pos n) = pos (n % 2)
remainder_2 (negsuc n) = if (n + 1) % 2 == 0 then pos 0 else negsuc 0

-- the test of the hash; `hash` is an `int`
unfoldable pub odd : Hash → Ipv45tuple → Bool
odd (toeplitz f) t = not (is_zero (remainder_2 (to_int (f t))))
odd add t = not (is_zero (remainder_2 (to_int (sum_hash t))))
odd xor t = not (is_zero (remainder_2 (to_int (xor_hash t))))
odd (vendored f) t = not (f t % 2 == 0)

module _ (rand : ℕ → ℕ) where
  -- the five assignments at the end of a round
  unfoldable pub next_tuple : ℕ → Ipv45tuple
  next_tuple calls = record {
    proto = rand calls % 2 ^ 8;
    src_addr = rand (calls + 1) % u32_mod;
    dst_addr = rand (calls + 2) % u32_mod;
    sport = rand (calls + 3) % u16_mod;
    dport = rand (calls + 4) % u16_mod;
  }

  -- one round of the endless loop
  unfoldable pub round : Mode → Hash → State → State
  round inc h s = record s { ctr = add64 s.ctr 1; tuple = next_tuple s.calls; calls = s.calls + 5 }
  round rand_loads h s =
      let hit = odd h s.tuple in
      record {
        tuple = next_tuple (s.calls + 1);
        ib0 = if hit then s.ib0 else add64 s.ib0 1;
        ib1 = if hit then add64 s.ib1 1 else s.ib1;
        ctr = rand s.calls;
        calls = s.calls + 6;
      }

  -- `lcore_hello` after `n` rounds
  unfoldable pub lcore_hello : Mode → Hash → ℕ → State → State
  lcore_hello mode h zero s = s
  lcore_hello mode h (suc n) s = lcore_hello mode h n (round mode h s)
