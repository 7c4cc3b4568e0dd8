-- ===== src/Common/Text.antt =====
-- `strtoul` and `strchr` of the C library on strings of bytes, and the conversion to `int`.
use Prim.Native.Nat.{ℕ, ◌+◌, ◌-◌, ◌*◌, ◌%◌, ◌^◌, ◌<◌}
use mathlib.Core.Path.{◌≡◌, refl}
use mathlib.Core.Bool.{Bool, true, false, ◌&&◌, ◌||◌}
use mathlib.Core.List.{List, [], ◌∷◌, map}
use native.Mathlib.Omega.{arith}
use flo_watcher_dpdk.Common.Int.{ℤ, pos, negsuc}
use flo_watcher_dpdk.Common.Lists.{All}
use flo_watcher_dpdk.Common.Tests.{ltb, leb, ◌==◌, if◌then◌else◌}
use flo_watcher_dpdk.Common.Words.{u32_mod, u64_mod}

-- an `unsigned long` as an `int`
abbrev pub to_int : ℕ → ℤ
to_int v = let w = v % u32_mod in if ltb w (2 ^ 31) then pos w else negsuc (u32_mod - 1 - w)

abbrev pub is_nil : List ℕ → Bool
is_nil [] = true
is_nil (c ∷ s) = false

abbrev pub is_space : ℕ → Bool
is_space c = (c == b' ') || (leb 9 c && leb c 13)

pub skip_spaces : List ℕ → List ℕ
skip_spaces [] = []
skip_spaces (c ∷ s) = let rest = skip_spaces s in if is_space c then rest else c ∷ s

-- the value of a digit, at least 36 for any other byte
abbrev pub digit : ℕ → ℕ
digit c =
    if leb b'0' c && leb c b'9'
    then c - b'0'
    else if leb b'a' c && leb c b'z'
    then c - b'a' + 10
    else if leb b'A' c && leb c b'Z'
    then c - b'A' + 10
    else 36

-- the digits at the start of `s`, on top of the value `n`, and what follows them
pub read_digits : ℕ → ℕ → List ℕ → ℕ × List ℕ
read_digits base n [] = (n, [])
read_digits base n (c ∷ s) =
    let further = read_digits base (n * base + digit c) s in
    if ltb (digit c) base then further else (n, c ∷ s)

abbrev pub starts : ℕ → List ℕ → Bool
starts base [] = false
starts base (c ∷ s) = ltb (digit c) base

abbrev pub sign : List ℕ → Bool × List ℕ
sign [] = (false, [])
sign (c ∷ s) = if c == b'-' then (true, s) else if c == b'+' then (false, s) else (false, c ∷ s)

-- the base 0 stands for the one that the prefix tells
pub radix : ℕ → List ℕ → ℕ × List ℕ
radix base [] = (if base == 0 then 10 else base, [])
radix base (c ∷ []) = (if base == 0 then 10 else base, c ∷ [])
radix base (c ∷ x ∷ s) =
    let hex = (c == b'0') && ((x == b'x') || (x == b'X')) && starts 16 s in
    let told = if c == b'0' then 8 else 10 in
    if hex && ((base == 0) || (base == 16))
    then (16, s)
    else (if base == 0 then told else base, c ∷ x ∷ s)

-- what a call leaves: the result, `*end`, whether there was a number, and whether `errno` is clear
pub record Scan : Type 0 where
  pub value : ℕ
  pub rest : List ℕ
  pub converted : Bool
  pub in_range : Bool

unfoldable pub strtoul : ℕ → List ℕ → Scan
strtoul base s =
    let (minus, unsigned) = sign (skip_spaces s) in
    let (base', body) = radix base unsigned in
    let (v, rest) = read_digits base' 0 body in
    let small = ltb v u64_mod in
    let exact = if minus then (u64_mod - v) % u64_mod else v in
    if starts base' body
    then record {
      value = if small then exact else u64_mod - 1;
      rest = rest;
      converted = true;
      in_range = small;
    }
    else record { value = 0; rest = s; converted = false; in_range = true }

-- a decimal numeral
abbrev pub numeral : List ℕ → List ℕ
numeral ds = map (λ d. b'0' + d) ds

unfoldable pub decimal_from : ℕ → List ℕ → ℕ
decimal_from n [] = n
decimal_from n (d ∷ ds) = decimal_from (n * 10 + d) ds

digit-numeral : (d : ℕ) → d < 10 → digit (b'0' + d) ≡ d
digit-numeral d h = ground arith

radix-ten : (s : List ℕ) → radix 10 s ≡ (10, s)
unfolding radix
radix-ten [] = refl
radix-ten (c ∷ []) = refl
radix-ten (c ∷ x ∷ s) = ground arith

read_digits-numeral :
    (n : ℕ) (ds : List ℕ)
    → All (λ d. d < 10) ds
    → read_digits 10 n (numeral ds) ≡ (decimal_from n ds, [])
unfolding read_digits decimal_from
read_digits-numeral n [] h = refl
read_digits-numeral n (d ∷ ds) h =
    let e = digit-numeral d h.0 in
    let small : ltb d 10 ≡ true = ground arith in
    rw (e, small) (read_digits-numeral (n * 10 + d) ds h.1)

-- a decimal numeral of at least one digit is read back
pub strtoul-numeral :
    (d : ℕ) (ds : List ℕ)
    → All (λ d. d < 10) (d ∷ ds)
    → decimal_from 0 (d ∷ ds) < u64_mod
    → strtoul 10 (numeral (d ∷ ds))
      ≡ record { value = decimal_from 0 (d ∷ ds); rest = []; converted = true; in_range = true }
unfolding strtoul skip_spaces
strtoul-numeral d ds h small =
    let plain : is_space (b'0' + d) ≡ false = ground arith in
    let unsigned : sign (numeral (d ∷ ds)) ≡ (false, numeral (d ∷ ds)) = ground arith in
    let digits : starts 10 (numeral (d ∷ ds)) ≡ true = ground (arith, digit-numeral d h.0) in
    let fits : ltb (decimal_from 0 (d ∷ ds)) u64_mod ≡ true = ground arith in
    rw
      (
        plain,
        unsigned,
        radix-ten (numeral (d ∷ ds)),
        digits,
        read_digits-numeral 0 (d ∷ ds) h,
        fits,
      )
      refl
