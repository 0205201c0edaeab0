-- ===== src/Network/Rate.antt =====
-- What the buckets of network.cpp add up to.
use nsca_fast.Prelude.{
  ℕ, zero, suc, ◌+◌, ◌-◌, ◌/◌, ◌%◌, ◌^◌, ◌≤◌, ◌<◌, ◌≡◌, refl, ap, ◌∙◌, List, [], ◌∷◌, length, set,
  arith,
}
use nsca_fast.Network.{Network, count_diff, count_second, sum_rps, save_statistics}

-- Seconds one after another from a time on, each with the counter that it finds.
unfoldable pub count_seconds : ℕ → List ℕ → Network → Network
count_seconds now [] n = n
count_seconds now (count ∷ counts) n =
    count_seconds (now + 1) counts
      (count_second now (record n { counters = record n.counters { counter = count } }))

count_diff_lem :
    (counter prev : ℕ)
    → prev ≤ counter
    → counter - prev < 2 ^ 31
    → counter < 2 ^ 64
    → count_diff counter prev ≡ counter - prev
unfolding count_diff
count_diff_lem counter prev le small word = ground arith

-- Five buckets in a row are all there are.
sum_rps_five :
    (rps : List ℕ) (r d0 d1 d2 d3 d4 : ℕ)
    → length rps ≡ 5
    → r < 5
    → d0 + d1 + d2 + d3 + d4 < 2 ^ 64
    → sum_rps (
        set
          (set
            (set (set (set rps (r % 5) d0) ((r + 1) % 5) d1) ((r + 1 + 1) % 5) d2)
            ((r + 1 + 1 + 1) % 5)
            d3)
          ((r + 1 + 1 + 1 + 1) % 5)
          d4)
      ≡ d0 + d1 + d2 + d3 + d4
unfolding sum_rps
sum_rps_five (a ∷ b ∷ c ∷ d ∷ e ∷ []) zero d0 d1 d2 d3 d4 h lt small = omega arith
sum_rps_five (a ∷ b ∷ c ∷ d ∷ e ∷ []) (suc zero) d0 d1 d2 d3 d4 h lt small = omega arith
sum_rps_five (a ∷ b ∷ c ∷ d ∷ e ∷ []) (suc (suc zero)) d0 d1 d2 d3 d4 h lt small = omega arith
sum_rps_five (a ∷ b ∷ c ∷ d ∷ e ∷ []) (suc (suc (suc zero))) d0 d1 d2 d3 d4 h lt small = omega arith
sum_rps_five (a ∷ b ∷ c ∷ d ∷ e ∷ []) (suc (suc (suc (suc zero)))) d0 d1 d2 d3 d4 h lt small =
    omega arith
sum_rps_five rps (suc (suc (suc (suc (suc r))))) d0 d1 d2 d3 d4 h lt small = absurd (omega arith)
sum_rps_five _ _ d0 d1 d2 d3 d4 h lt small = absurd (omega arith)

buckets_in_turn :
    (now : ℕ) (n : Network) (c1 c2 c3 c4 c5 : ℕ)
    → (count_seconds now (c1 ∷ c2 ∷ c3 ∷ c4 ∷ c5 ∷ []) n).counter_rps
      ≡ set
          (set
            (set
              (set
                (set n.counter_rps (now % 5 % 5) (count_diff c1 n.counter_prev))
                ((now % 5 + 1) % 5)
                (count_diff c2 c1))
              ((now % 5 + 1 + 1) % 5)
              (count_diff c3 c2))
            ((now % 5 + 1 + 1 + 1) % 5)
            (count_diff c4 c3))
          ((now % 5 + 1 + 1 + 1 + 1) % 5)
          (count_diff c5 c4)
unfolding count_seconds count_second
buckets_in_turn now n c1 c2 c3 c4 c5 =
    let e0 : now % 5 % 5 ≡ now % 5 = omega arith in
    let e1 : (now % 5 + 1) % 5 ≡ (now + 1) % 5 = omega arith in
    let e2 : (now % 5 + 1 + 1) % 5 ≡ (now + 1 + 1) % 5 = omega arith in
    let e3 : (now % 5 + 1 + 1 + 1) % 5 ≡ (now + 1 + 1 + 1) % 5 = omega arith in
    let e4 : (now % 5 + 1 + 1 + 1 + 1) % 5 ≡ (now + 1 + 1 + 1 + 1) % 5 = omega arith in
    rw (e0, e1, e2, e3, e4) refl

-- Over five seconds in a row, in none of which 2^31 connections come, the rate that save_statistics
-- saves is a fifth of the connections that have come in them.
pub save_statistics_rate :
    (now c1 c2 c3 c4 c5 : ℕ) (n : Network)
    → length n.counter_rps ≡ 5
    → n.counter_prev ≤ c1
    → c1 - n.counter_prev < 2 ^ 31
    → c1 ≤ c2
    → c2 - c1 < 2 ^ 31
    → c2 ≤ c3
    → c3 - c2 < 2 ^ 31
    → c3 ≤ c4
    → c4 - c3 < 2 ^ 31
    → c4 ≤ c5
    → c5 - c4 < 2 ^ 31
    → c5 < 2 ^ 64
    → (save_statistics (count_seconds now (c1 ∷ c2 ∷ c3 ∷ c4 ∷ c5 ∷ []) n)).rps
      ≡ (c5 - n.counter_prev) / 5
unfolding save_statistics count_seconds count_second
save_statistics_rate now c1 c2 c3 c4 c5 n long l1 s1 l2 s2 l3 s3 l4 s4 l5 s5 word =
    let e1 = count_diff_lem c1 n.counter_prev l1 s1 (omega arith) in
    let e2 = count_diff_lem c2 c1 l2 s2 (omega arith) in
    let e3 = count_diff_lem c3 c2 l3 s3 (omega arith) in
    let e4 = count_diff_lem c4 c3 l4 s4 (omega arith) in
    let e5 = count_diff_lem c5 c4 l5 s5 word in
    ap (λ t. t / 5)
      (ap sum_rps (buckets_in_turn now n c1 c2 c3 c4 c5)
        ∙ sum_rps_five n.counter_rps (now % 5) (count_diff c1 n.counter_prev) (count_diff c2 c1)
            (count_diff c3 c2) (count_diff c4 c3) (count_diff c5 c4) long (omega arith)
            (omega (arith, e1, e2, e3, e4, e5)))
    ∙ ap (λ t. t / 5) (omega (arith, e1, e2, e3, e4, e5))
