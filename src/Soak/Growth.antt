-- ===== src/Soak/Growth.antt =====
-- tools/soak.py: the growth that the summary reports, against the samples.
use fujinet_intv_basketball.Base.{
  ℕ, ◌+◌, ◌-◌, ◌*◌, ◌≤◌, ◌≡◌, List, [], ◌∷◌, arith, length, take, drop, All, All-take, All-drop,
  length-take, length-drop, sub_ℕ, pos_part, neg_part, subst,
}
use fujinet_intv_basketball.Soak.{sum, third_of, growth}

abbrev pub Between : ℕ → ℕ → ℕ → Type 0
Between lo hi x = (lo ≤ x) × (x ≤ hi)

sum_bounds :
    (lo hi : ℕ) (xs : List ℕ)
    → All (Between lo hi) xs
    → (lo * length xs ≤ sum xs) × (sum xs ≤ hi * length xs)
unfolding sum
sum_bounds lo hi [] h = (omega arith, omega arith)
sum_bounds lo hi (x ∷ xs) h = let rest = sum_bounds lo hi xs h.1 in (grind arith, grind arith)

sub_times : (lo hi n : ℕ) → lo ≤ hi → (hi - lo) * n + lo * n ≡ hi * n
sub_times lo hi n order = grind arith

sub_bounds :
    (a b n lo hi : ℕ)
    → lo ≤ hi
    → lo * n ≤ a
    → a ≤ hi * n
    → lo * n ≤ b
    → b ≤ hi * n
    → (pos_part (sub_ℕ a b) ≤ (hi - lo) * n) × (neg_part (sub_ℕ a b) ≤ (hi - lo) * n)
sub_bounds a b n lo hi order al ah bl bh = ground (arith, sub_times lo hi n order)

third-le : (rss : List ℕ) → 1 ≤ length rss → third_of rss ≤ length rss
unfolding third_of
third-le rss h = ground arith

-- When all samples, of which there is one or more, lie between two bounds, the growth times the size
-- of a third is at most that size times the distance of the bounds, upwards and downwards. So samples
-- that are all equal show no growth.
pub growth_bounds :
    (lo hi : ℕ) (rss : List ℕ)
    → 1 ≤ length rss
    → lo ≤ hi
    → All (Between lo hi) rss
    → (pos_part (growth rss) ≤ (hi - lo) * third_of rss)
      × (neg_part (growth rss) ≤ (hi - lo) * third_of rss)
unfolding growth
growth_bounds lo hi rss some_sample order h =
    let third = third_of rss in
    let fits = third-le rss some_sample in
    let first = sum_bounds lo hi (take third rss) (All-take (Between lo hi) third rss h) in
    let last =
      sum_bounds lo hi (drop (length rss - third) rss)
        (All-drop (Between lo hi) (length rss - third) rss h) in
    let n : length (take third rss) ≡ third = omega (arith, length-take third rss) in
    let m : length (drop (length rss - third) rss) ≡ third =
      omega (arith, length-drop (length rss - third) rss) in
    sub_bounds (sum (drop (length rss - third) rss)) (sum (take third rss)) third lo hi order
      (subst (λ k. lo * k ≤ sum (drop (length rss - third) rss)) m last.0)
      (subst (λ k. sum (drop (length rss - third) rss) ≤ hi * k) m last.1)
      (subst (λ k. lo * k ≤ sum (take third rss)) n first.0)
      (subst (λ k. sum (take third rss) ≤ hi * k) n first.1)
