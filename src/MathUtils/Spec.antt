-- ===== src/MathUtils/Spec.antt =====
-- What it is to round a quotient of integers towards zero, away from zero, and down.
use index.Base.{suc, zero, ◌+◌, ◌*◌, ◌≤◌, ◌<◌, ◌≡◌, Returns, Result, err, division_by_zero}
use index.Base.Int.{ℤ, pos, negsuc, nat_abs, ◌+ℤ◌, ◌*ℤ◌, ◌≤ℤ◌, ◌<ℤ◌}
use index.BigNumber.{reference}

-- The sign of `q` is that of `n / d`, or `q` is zero.
abbrev pub HasSign : ℤ → ℤ → ℤ → Type 0
HasSign n d q = (pos 0 ≤ℤ n *ℤ d → pos 0 ≤ℤ q) × (n *ℤ d ≤ℤ pos 0 → q ≤ℤ pos 0)

-- `q` is `n / d` rounded towards zero.
abbrev pub RoundsToZero : ℤ → ℤ → ℤ → Type 0
RoundsToZero n d q =
    (nat_abs q * nat_abs d ≤ nat_abs n)
    × (nat_abs n < nat_abs q * nat_abs d + nat_abs d)
    × HasSign n d q

-- `q` is `n / d` rounded away from zero.
abbrev pub RoundsFromZero : ℤ → ℤ → ℤ → Type 0
RoundsFromZero n d q =
    (nat_abs n ≤ nat_abs q * nat_abs d)
    × (nat_abs q * nat_abs d < nat_abs n + nat_abs d)
    × HasSign n d q

-- `q` is `n / d` rounded down, the divisor of either sign.
abbrev pub RoundsDown : ℤ → ℤ → ℤ → Type 0
RoundsDown n (pos d) q = (q *ℤ pos d ≤ℤ n) × (n <ℤ q *ℤ pos d +ℤ pos d)
RoundsDown n (negsuc d) q = (n ≤ℤ q *ℤ negsuc d) × (q *ℤ negsuc d +ℤ negsuc d <ℤ n)

-- A call throws a division by zero if the divisor is zero, and else returns a value with the property.
abbrev pub Divides : ℤ → Result ℤ → (ℤ → Type 0) → Type 0
Divides (pos zero) r P = r ≡ err division_by_zero
Divides (pos (suc n)) r P = Returns r P
Divides (negsuc n) r P = Returns r P
