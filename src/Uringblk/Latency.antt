-- ===== src/Uringblk/Latency.antt =====
-- `calculate_latency_percentile` of driver/uringblk_main.c, over the histogram of latencies.
use kvm_db.Prelude.{
  ℕ, zero, suc, ◌+◌, ◌-◌, ◌*◌, ◌/◌, ◌%◌, ◌^◌, ◌≤◌, ◌<◌, ◌≡◌, ◌≢◌, ◌∙◌, ◌↔◌, List, [], ◌∷◌, length,
  take, leb, ◌==◌, if◌then◌else◌, arith,
}
use kvm_db.Prelude.Word.{u32, u64}

-- `total_ops`: the sum, in 64 bits
abbrev pub total : ℕ → List ℕ → ℕ
total acc [] = acc
total acc (n ∷ ns) = total (u64 (acc + n)) ns

-- The second loop, from bucket `i` on: the number of the bucket that is returned.
unfoldable pub find_bucket : ℕ → ℕ → ℕ → List ℕ → ℕ
find_bucket target running i [] = i - 1
find_bucket target running i (n ∷ ns) =
    let rest = find_bucket target (u64 (running + n)) (i + 1) ns in
    if leb target (u64 (running + n)) then i else rest

unfoldable pub calculate_latency_percentile : List ℕ → ℕ → ℕ
calculate_latency_percentile buckets percentile =
    let total_ops = total 0 buckets in
    if total_ops == 0
    then 0
    else u32 (find_bucket (u64 (total_ops * percentile) / 100) 0 0 buckets * 10)

-- The sum without a bound, and the buckets' bound.
abbrev pub sum : List ℕ → ℕ
sum [] = 0
sum (n ∷ ns) = n + sum ns

abbrev pub AreWords : List ℕ → Type 0
AreWords [] = Unit
AreWords (n ∷ ns) = (n < 2 ^ 32) × AreWords ns

sum_bound : (bs : List ℕ) → AreWords bs → sum bs ≤ length bs * 2 ^ 32
sum_bound [] w = omega arith
sum_bound (b ∷ bs) (h, w) = omega (arith, sum_bound bs w)

total-sum : (acc : ℕ) (bs : List ℕ) → acc + sum bs < 2 ^ 64 → total acc bs ≡ acc + sum bs
total-sum acc [] h = omega arith
total-sum acc (b ∷ bs) h =
    let e : u64 (acc + b) ≡ acc + b = omega arith in
    rw e (total-sum (acc + b) bs (omega arith) ∙ omega arith)

-- The search returns one of the buckets from `i` on: the first whose running sum reaches the target.
find_lem :
    (target running i : ℕ) (b : ℕ) (bs : List ℕ) (j : ℕ)
    → running + sum (b ∷ bs) < 2 ^ 64
    → target ≤ running + sum (b ∷ bs)
    → let k = find_bucket target running i (b ∷ bs) in
      (i ≤ k)
      × (k < i + length (b ∷ bs))
      × ((k ≤ i + j) ↔ (target ≤ running + sum (take (suc j) (b ∷ bs))))
unfolding find_bucket
find_lem target running i b [] j small reached =
    let e : u64 (running + b) ≡ running + b = omega arith in ground (arith, e)
find_lem target running i b (c ∷ cs) zero small reached =
    let e : u64 (running + b) ≡ running + b = omega arith in
    ground (arith, e, find_lem target (running + b) (i + 1) c cs zero)
find_lem target running i b (c ∷ cs) (suc j) small reached =
    let e : u64 (running + b) ≡ running + b = omega arith in
    ground (arith, e, find_lem target (running + b) (i + 1) c cs j)

module _ (b : ℕ) (bs : List ℕ) (percentile : ℕ) (words : AreWords (b ∷ bs))
    (few : length (b ∷ bs) ≤ 32) (share : percentile ≤ 100) (some_op : sum (b ∷ bs) ≢ 0) where
  abbrev target : ℕ
  target = sum (b ∷ bs) * percentile / 100

  target_reached : target ≤ sum (b ∷ bs)
  target_reached =
      let scaled : sum (b ∷ bs) * percentile ≤ sum (b ∷ bs) * 100 = grind arith in omega arith

  percentile_bucket :
      calculate_latency_percentile (b ∷ bs) percentile ≡ find_bucket target 0 0 (b ∷ bs) * 10
  unfolding calculate_latency_percentile
  percentile_bucket =
      let bound = sum_bound (b ∷ bs) words in
      let all : total 0 (b ∷ bs) ≡ sum (b ∷ bs) =
        total-sum 0 (b ∷ bs) (omega arith) ∙ omega arith in
      let scaled : sum (b ∷ bs) * percentile ≤ sum (b ∷ bs) * 100 = grind arith in
      let exact : u64 (sum (b ∷ bs) * percentile) ≡ sum (b ∷ bs) * percentile = omega arith in
      let (low, high, first) =
        find_lem target 0 0 b bs 0 (omega arith) (omega (arith, target_reached)) in
      rw (all, exact) (ground arith)

  -- Over a histogram of at most 32 buckets with at least one operation, the percentile is ten times the
  -- number of a bucket, namely of the first that brings the running sum to the given share of all
  -- operations (rounded down): it is at most `10 * j` exactly where the buckets up to `j` hold that share.
  pub percentile_lem :
      (j : ℕ)
      → (calculate_latency_percentile (b ∷ bs) percentile % 10 ≡ 0)
        × (calculate_latency_percentile (b ∷ bs) percentile < length (b ∷ bs) * 10)
        × ((calculate_latency_percentile (b ∷ bs) percentile ≤ j * 10)
            ↔ (sum (b ∷ bs) * percentile / 100 ≤ sum (take (suc j) (b ∷ bs))))
  percentile_lem j =
      let bound = sum_bound (b ∷ bs) words in
      let (low, high, first) =
        find_lem target 0 0 b bs j (omega arith) (omega (arith, target_reached)) in
      rw percentile_bucket (omega arith, omega arith, ground arith)

-- For a single operation the median is 0, whichever bucket the operation fell in: its share is
-- rounded down to no operation at all.
lone_operation :
    (b : ℕ) (bs : List ℕ)
    → AreWords (b ∷ bs)
    → length (b ∷ bs) ≤ 32
    → sum (b ∷ bs) ≡ 1
    → calculate_latency_percentile (b ∷ bs) 50 ≡ 0
lone_operation b bs words few one =
    let (_, _, (l, r)) = percentile_lem b bs 50 words few (omega arith) (omega arith) 0 in
    omega (arith, r (omega arith))
