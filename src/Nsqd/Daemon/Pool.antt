-- ===== src/Nsqd/Daemon/Pool.antt =====
-- nsqd/nsqd.go: resizePool, which keeps the number of goroutines that scan channels.
use nsq.Common.{
  ℕ, zero, suc, ◌+◌, ◌-◌, ◌/◌, ◌≤◌, ◌<◌, ◌≡◌, Option, none, some, ltb, if◌then◌else◌, ◌==◌, nat_eq,
  nat_beq, arith, Bool-cases, inl, inr,
}

-- int(float64(num) * 0.25), between 1 and QueueScanWorkerPoolMax.
unfoldable pub ideal_pool_size : ℕ → ℕ → ℕ
ideal_pool_size num max =
    let ideal = num / 4 in if ltb ideal 1 then 1 else if ltb max ideal then max else ideal

-- The loop, which starts or ends one worker in each round.
unfoldable pub resize_loop : ℕ → ℕ → ℕ → Option ℕ
resize_loop zero ideal pool_size = none
resize_loop (suc fuel) ideal pool_size =
    let contract = resize_loop fuel ideal (pool_size - 1) in
    let expand = resize_loop fuel ideal (pool_size + 1) in
    if ideal == pool_size then some pool_size else if ltb ideal pool_size then contract else expand

-- The distance to the ideal size bounds the rounds.
unfoldable pub resize_pool : ℕ → ℕ → ℕ → Option ℕ
resize_pool num max pool_size =
    let ideal = ideal_pool_size num max in
    resize_loop (ideal - pool_size + (pool_size - ideal) + 1) ideal pool_size

resize_loop_ends :
    (fuel ideal pool_size : ℕ)
    → ideal - pool_size + (pool_size - ideal) < fuel
    → resize_loop fuel ideal pool_size ≡ some ideal
unfolding resize_loop
resize_loop_ends zero ideal pool_size h = absurd (omega arith)
resize_loop_ends (suc fuel) ideal pool_size h = elim (Bool-cases (nat_beq ideal pool_size)) [
  | inl e ↦ ground arith
  | inr ne ↦ elim (Bool-cases (ltb ideal pool_size)) [
    | inl more ↦ rw (ne, more) (resize_loop_ends fuel ideal (pool_size - 1) (ground arith))
    | inr less ↦ rw (ne, less) (resize_loop_ends fuel ideal (pool_size + 1) (ground arith))
  ]
]

-- When QueueScanWorkerPoolMax is positive, resizePool ends, whatever the number of workers was, with
-- between 1 and QueueScanWorkerPoolMax of them: one for less than four channels, and otherwise at most
-- one for each four.
pub resize_pool_lem :
    (num max pool_size : ℕ)
    → 0 < max
    → (size : ℕ) × (resize_pool num max pool_size ≡ some size)
      × (1 ≤ size)
      × (size ≤ max)
      × (num < 4 → size ≡ 1)
      × (4 ≤ num → size ≤ num / 4)
unfolding resize_pool ideal_pool_size
resize_pool_lem num max pool_size h =
    let ideal = ideal_pool_size num max in
    (
      ideal,
      resize_loop_ends _ ideal pool_size (omega arith),
      ground arith,
      ground arith,
      λ few. ground arith,
      λ many. ground arith,
    )
