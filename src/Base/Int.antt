-- ===== src/Base/Int.antt =====
-- Signed integers over the native numbers, for the JSON-RPC error codes.
use ethera_bundler.Base.{ℕ, ◌-◌}

-- `negsuc n` is -(n + 1).
pub data ℤ : Type 0 where
  pos : ℕ → ℤ
  negsuc : ℕ → ℤ

-- `-n`, for `n` at least 1.
abbrev pub minus : ℕ → ℤ
minus n = negsuc (n - 1)
