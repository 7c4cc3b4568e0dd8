-- ===== src/Toeplitz/Loads.antt =====
-- How toeplitz/main.c spreads its packets under RAND.
use Prim.Native.Nat.{digits, differ, bit_xor, bit_xor-bitwise}
use flo_watcher_dpdk.Common.{
  ℕ, zero, suc, ◌+◌, ◌-◌, ◌%◌, ◌^◌, ◌≤◌, ◌≡◌, refl, sym, ap, ◌∙◌, arith, not, ◌==◌, Bool-cases, inl,
  inr, ltb, u32_mod,
}
use flo_watcher_dpdk.Common.Int.{pos, negsuc, is_zero}
use flo_watcher_dpdk.Common.Text.{to_int}
use flo_watcher_dpdk.Toeplitz.{
  Ipv45tuple, add, xor, Mode, inc, rand_loads, State, sum_hash, xor_hash, remainder_2, odd, round,
  lcore_hello,
}

differ-parity : (x y : ℕ) → differ x y % 2 ≡ (x + y) % 2
differ-parity zero y = omega arith
differ-parity (suc x) zero = omega arith
differ-parity (suc x) (suc y) = omega (arith, differ-parity x y)

digits-parity : (n a b : ℕ) → a ≤ n → digits (λ b. b) differ n a b % 2 ≡ (a + b) % 2
digits-parity zero zero b h = omega arith
digits-parity zero (suc a) b h = absurd (omega arith)
digits-parity (suc n) zero b h = omega arith
digits-parity (suc n) (suc a) b h = omega (arith, differ-parity (suc a % 2) (b % 2))

-- the lowest digit of an exclusive or is that of the sum
bit_xor-parity : (a b : ℕ) → bit_xor a b % 2 ≡ (a + b) % 2
bit_xor-parity a b = omega (arith, bit_xor-bitwise a b, digits-parity a a b (omega arith))

is_zero-pos : (n : ℕ) → is_zero (pos n) ≡ (n == 0)
is_zero-pos zero = refl
is_zero-pos (suc n) = ground arith

remainder_2-negsuc : (n : ℕ) → is_zero (remainder_2 (negsuc n)) ≡ ((n + 1) % 2 == 0)
unfolding remainder_2
remainder_2-negsuc n = elim (Bool-cases ((n + 1) % 2 == 0)) [
  | inl even ↦ rw even refl
  | inr odd ↦ rw odd refl
]

-- the test of an `int` looks at the lowest digit of the word
int-parity : (w : ℕ) → not (is_zero (remainder_2 (to_int w))) ≡ not (w % 2 == 0)
unfolding remainder_2
int-parity w = elim (Bool-cases (ltb (w % u32_mod) (2 ^ 31))) [
  | inl small ↦
      let same : w % u32_mod % 2 ≡ w % 2 = omega arith in
      rw small (ap not (is_zero-pos (w % u32_mod % 2) ∙ ap (λ k. k == 0) same))
  | inr big ↦
      let same : (u32_mod - 1 - w % u32_mod + 1) % 2 ≡ w % 2 = omega arith in
      rw big (ap not (remainder_2-negsuc (u32_mod - 1 - w % u32_mod) ∙ ap (λ k. k == 0) same))
]

hash-parity : (t : Ipv45tuple) → xor_hash t % 2 ≡ sum_hash t % 2
unfolding xor_hash sum_hash
hash-parity t =
    let a = bit_xor t.proto t.src_addr in
    let b = bit_xor a t.dst_addr in
    let c = bit_xor b t.sport in
    omega (
      arith,
      bit_xor-parity t.proto t.src_addr,
      bit_xor-parity a t.dst_addr,
      bit_xor-parity b t.sport,
      bit_xor-parity c t.dport,
    )

odd-same : (t : Ipv45tuple) → odd add t ≡ odd xor t
unfolding odd
odd-same t =
    int-parity (sum_hash t)
    ∙ ap (λ k. not (k == 0)) (sym (hash-parity t))
    ∙ sym (int-parity (xor_hash t))

-- The loads do not tell the sum of the header fields from their exclusive or: after any number of
-- rounds from one state, the builds with ADD and with XOR are in the same state, whatever numbers are
-- drawn, under INC and under RAND.
pub lcore_hello-add_xor :
    (rand : ℕ → ℕ) (mode : Mode) (n : ℕ) (s : State)
    → lcore_hello rand mode add n s ≡ lcore_hello rand mode xor n s
unfolding lcore_hello round
lcore_hello-add_xor rand mode zero s = refl
lcore_hello-add_xor rand inc (suc n) s = lcore_hello-add_xor rand inc n _
lcore_hello-add_xor rand rand_loads (suc n) s =
    rw (odd-same s.tuple) (lcore_hello-add_xor rand rand_loads n _)
