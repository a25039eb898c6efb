-- ===== src/Base/Below.antt =====
-- Facts about small numbers, checked at every value.
use cproject.Base.{ℕ, zero, suc, ◌<◌, ◌≡◌, Bool, true, ◌&&◌, arith}

-- Whether a test passes at each of 0, 1, ..., `bound` - 1.
unfoldable pub passes_below : (ℕ → Bool) → ℕ → Bool
passes_below test zero = true
passes_below test (suc bound) = passes_below test bound && test bound

pub passes_at :
    (test : ℕ → Bool) (bound i : ℕ) → i < bound → passes_below test bound ≡ true → test i ≡ true
unfolding passes_below
passes_at test zero i small passed = absurd (omega arith)
passes_at test (suc bound) i small passed = ground (arith, passes_at test bound i)
