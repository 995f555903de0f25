-- ===== src/Quota/Wrap.antt =====
-- The limit of `enforce_limit` in src/lib.rs, megabytes to bytes in a `u64`.
use o_llm.Common.{ℕ, ◌*◌, ◌%◌, ◌^◌, ◌≡◌, arith, Bool, List}
use o_llm.Common.Text.{Text}
use o_llm.Quota.{CacheEntry, enforce_limit}

limit_bytes_lem : (m : ℕ) → m * 1024 * 1024 % 2 ^ 64 ≡ (m % 2 ^ 44) * 1024 * 1024 % 2 ^ 64
limit_bytes_lem m = omega arith

-- Only the lowest 44 bits of a limit in megabytes count: at a multiple of 2^44 the quota is
-- enforced as for a limit of 0.
pub enforce_limit-wraps :
    (removes : Text → Bool) (limit_mb now : ℕ) (entries : List CacheEntry)
    → enforce_limit removes limit_mb now entries
      ≡ enforce_limit removes (limit_mb % 2 ^ 44) now entries
unfolding enforce_limit
enforce_limit-wraps removes m now entries = rw (limit_bytes_lem m)
