-- ===== src/Logging.antt =====
-- src/extensions/logging/level.rs: the levels of the log.
pub mod Order
pub mod Spans
use rucoonos.Prelude.{Bool, true, false, Option, some, none}

pub data LogLevel : Type 0 where
  debug trace info warn error : LogLevel

pub data Ordering : Type 0 where
  less equal greater : Ordering

-- The derived `PartialEq`.
pub same : LogLevel → LogLevel → Bool
same debug debug = true
same trace trace = true
same info info = true
same warn warn = true
same error error = true
same _ _ = false

-- The arms of `partial_cmp` after its first.
pub compared : LogLevel → LogLevel → Option Ordering
compared trace _ = some less
compared debug trace = some greater
compared debug _ = some less
compared info trace = some greater
compared info debug = some greater
compared info _ = some less
compared warn trace = some greater
compared warn debug = some greater
compared warn info = some greater
compared warn _ = some less
compared error trace = some greater
compared error debug = some greater
compared error info = some greater
compared error warn = some greater
compared error _ = some less

pub partial_cmp : LogLevel → LogLevel → Option Ordering
unfolding same compared
partial_cmp s o = elim (same s o) [ true ↦ some equal | false ↦ compared s o ]
