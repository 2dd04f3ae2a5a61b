-- ===== src/Examples/Services.antt =====
-- The theorems on retries at concrete inputs.
use project_alpha.Common.{ℕ, zero, suc, arith}
use project_alpha.Float.Int.{ℤ}
use project_alpha.Float.Fixed.{fixed}
use project_alpha.Services.Retry.{Attempt, returned, raised, Backoff, retry_with_backoff}
use project_alpha.Services.Retry.Outcomes.{scripted, EndsAs, retry_with_backoff-EndsAs}
use project_alpha.Examples.Data.{whole}

-- Two failures, and then the value 7.
abbrev outcome : ℕ → Attempt ℕ ℕ
outcome zero = raised 1
outcome (suc zero) = raised 2
outcome (suc (suc n)) = returned 7

abbrev backoff : Backoff ℤ
backoff = record { max_attempts = 5; base_delay_seconds = whole 1; max_delay_seconds = whole 30 }

abbrev middle : ℕ → ℤ → ℤ → ℤ
middle n lo hi = lo

retry_with_backoff-EndsAs_example :
    EndsAs middle outcome 0 5 (retry_with_backoff middle (scripted middle outcome) backoff 0)
retry_with_backoff-EndsAs_example = retry_with_backoff-EndsAs middle outcome backoff (omega arith)
