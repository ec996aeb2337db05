-- ===== src/Tests/Shards.antt =====
-- A shard of twelve.
use dlr.Prelude.{ℕ, ◌≤◌, ◌%◌, ◌≡◌, ◌<◌, ◌+◌, ◌^◌, arith}
use dlr.Coding.Hash.{fib_hash64_u64}
use dlr.Core.Session.{shard, shard-fib_hash64_u64}

shard-fib_hash64_u64_example :
    (shard (2 ^ 64 + 7) 12 < 12)
    × ((b : ℕ)
        → 1 ≤ b
        → b < 64
        → shard (2 ^ 64 + 7) (2 ^ b) ≡ fib_hash64_u64 ((2 ^ 64 + 7) % 2 ^ 64) b)
shard-fib_hash64_u64_example = shard-fib_hash64_u64 (2 ^ 64 + 7) 12 (omega arith)
