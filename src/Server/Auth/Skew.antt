-- ===== src/Server/Auth/Skew.antt =====
-- The clock-skew test of authenticate_with_key in wrapping arithmetic.
use mpc_ext.Base.{ℕ, ◌+◌, ◌≤◌, ◌<◌, ◌≡◌, ◌⊎◌, ◌↔◌, false, arith}
use mpc_ext.Server.Auth.{i64_mod, sign_bit, is_skewed, max_clock_skew_ms}

-- The signed numbers `now` and `timestamp` differ by at most the allowed skew.
abbrev pub IsNear : ℕ → ℕ → Type 0
IsNear now timestamp =
    ((timestamp < sign_bit)
      × (now ≤ timestamp + max_clock_skew_ms)
      × (timestamp ≤ now + max_clock_skew_ms))
    ⊎ ((sign_bit ≤ timestamp) × (now + i64_mod ≤ timestamp + max_clock_skew_ms))

-- The test lets through the timestamps within the allowed skew and one more: the timestamp 2^63
-- milliseconds before the clock, where the difference has no absolute value in an i64.
pub not_skewed_iff :
    (now timestamp : ℕ)
    → now + max_clock_skew_ms < sign_bit
    → timestamp < i64_mod
    → (is_skewed now timestamp ≡ false) ↔ (IsNear now timestamp ⊎ (timestamp ≡ now + sign_bit))
unfolding is_skewed
not_skewed_iff now timestamp hn ht = (λ h. ground arith, λ h. ground arith)
