-- ===== src/Logging/Order.antt =====
-- src/extensions/logging/level.rs: the order of the levels.
use rucoonos.Prelude.{ℕ, ◌≡◌, arith, some, ltb, ◌==◌, if◌then◌else◌}
use rucoonos.Logging.{LogLevel, Ordering, partial_cmp}

-- How severe a level is.
pub severity : LogLevel → ℕ
severity LogLevel.trace = 0
severity LogLevel.debug = 1
severity LogLevel.info = 2
severity LogLevel.warn = 3
severity LogLevel.error = 4

abbrev pub order : ℕ → ℕ → Ordering
order a b = if a == b then Ordering.equal else if ltb a b then Ordering.less else Ordering.greater

-- The comparison gives an answer for any two levels, and it is that of their severities: tracing,
-- debugging, information, warning, error.
pub partial_cmp-severity :
    (s o : LogLevel) → partial_cmp s o ≡ some (order (severity s) (severity o))
unfolding partial_cmp severity
partial_cmp-severity s o = ground arith
