-- ===== src/Buckets/Addrs.antt =====
-- The buffers of bursts, as the addresses by which they are freed.
use flo_watcher_dpdk.Common.{
  ℕ, ◌+◌, ◌≡◌, refl, ap, ◌∙◌, List, [], ◌∷◌, ◌++◌, length, count, count-append, arith,
}
use flo_watcher_dpdk.Buckets.{addrs}
use flo_watcher_dpdk.Dpdk.{Mbuf}

pub addrs-append : (ms ns : List Mbuf) → addrs (ms ++ ns) ≡ addrs ms ++ addrs ns
unfolding addrs
addrs-append [] ns = refl
addrs-append (m ∷ ms) ns = ap (λ t. m.addr ∷ t) (addrs-append ms ns)

pub count-addrs :
    (a : ℕ) (ms ns : List Mbuf)
    → count a (addrs (ms ++ ns)) ≡ count a (addrs ms) + count a (addrs ns)
count-addrs a ms ns = ap (count a) (addrs-append ms ns) ∙ count-append a (addrs ms) (addrs ns)

pub count-none : (a : ℕ) → count a (addrs []) ≡ 0
unfolding addrs count
count-none a = refl

-- one buffer is freed
pub count-freed :
    (a : ℕ) (freed : List ℕ) (m : Mbuf) (ms : List Mbuf)
    → count a (freed ++ m.addr ∷ []) + count a (addrs ms) ≡ count a freed + count a (addrs (m ∷ ms))
unfolding addrs count
count-freed a freed m ms = omega (arith, count-append a freed (m.addr ∷ []))

pub length-addrs : (ms : List Mbuf) → length (addrs ms) ≡ length ms
unfolding addrs
length-addrs [] = refl
length-addrs (m ∷ ms) = omega (arith, length-addrs ms)
