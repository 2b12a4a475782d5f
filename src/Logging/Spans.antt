-- ===== src/Logging/Spans.antt =====
-- src/extensions/logging.rs: the subscriber of `tracing` and the task that writes the log. Strings are
-- their bytes. The queue between the two is a list, first in, first out, and never refuses an entry;
-- the counter of the spans is a natural number.
pub mod Nesting
use rucoonos.Prelude.{
  ℕ, suc, Bool, true, false, ◌&&◌, ◌==◌, if◌then◌else◌, List, [], ◌∷◌, ◌++◌, Option, none, some,
  Bytes,
}
use rucoonos.Net.IpMap.{get, insert}
use rucoonos.Logging.{LogLevel, Ordering, less, equal, greater, partial_cmp}

-- `tracing::Level`
pub data Level : Type 0 where
  debug trace info warn error : Level

-- `From<&tracing::Level>`
abbrev pub from : Level → LogLevel
from Level.debug = LogLevel.debug
from Level.trace = LogLevel.trace
from Level.info = LogLevel.info
from Level.warn = LogLevel.warn
from Level.error = LogLevel.error

-- The letter that `Display` writes.
abbrev pub fmt : LogLevel → Bytes
fmt LogLevel.debug = 0x44 ∷ []
fmt LogLevel.trace = 0x54 ∷ []
fmt LogLevel.info = 0x49 ∷ []
fmt LogLevel.warn = 0x57 ∷ []
fmt LogLevel.error = 0x45 ∷ []

pub data SubscriberMessage : Type 0 where
  new_span : (id : ℕ) (name : Bytes) → SubscriberMessage
  enter : (id : ℕ) → SubscriberMessage
  exit : (id : ℕ) → SubscriberMessage
  event : (content : Bytes) (level : LogLevel) → SubscriberMessage

-- `SerialSubscriber`, with its queue.
pub record SerialSubscriber : Type 0 where
  pub queue : List SubscriberMessage
  pub id_counter : ℕ
  pub level : LogLevel

-- `serial`
unfoldable pub serial : LogLevel → SerialSubscriber
serial level = record { queue = []; id_counter = 1; level = level }

-- `>=` of `PartialOrd`
abbrev at_least : Option Ordering → Bool
at_least none = false
at_least (some less) = false
at_least (some equal) = true
at_least (some greater) = true

pub enabled : SerialSubscriber → Level → Bool
enabled s metadata = at_least (partial_cmp (from metadata) s.level)

abbrev pub send : SerialSubscriber → SubscriberMessage → SerialSubscriber
send s m = record s { queue = s.queue ++ (m ∷ []) }

-- The calls of `tracing`: of them `subscribe_span` gives the number of the span.
pub subscribe_span : SerialSubscriber → Bytes → ℕ × SerialSubscriber
subscribe_span s name =
    (s.id_counter, send (record s { id_counter = suc s.id_counter }) (new_span s.id_counter name))

pub subscribe_event : SerialSubscriber → Bytes → Level → SerialSubscriber
subscribe_event s content level = send s (event content (from level))

pub subscribe_enter : SerialSubscriber → ℕ → SerialSubscriber
subscribe_enter s id = send s (enter id)

pub subscribe_exit : SerialSubscriber → ℕ → SerialSubscriber
subscribe_exit s id = send s (exit id)

-- The state of `logger`, with the lines that it printed. The last element of `current_name` stands
-- first.
pub record Logger : Type 0 where
  pub span_names : List (ℕ × Bytes)
  pub current_name : List Bytes
  pub lines : List Bytes

abbrev pub names : List (ℕ × Bytes) → ℕ → Option Bytes
names span_names id = get ◌==◌ id span_names

abbrev pub same_name : Bytes → Bytes → Bool
same_name [] [] = true
same_name [] (y ∷ ys) = false
same_name (x ∷ xs) [] = false
same_name (x ∷ xs) (y ∷ ys) = (x == y) && same_name xs ys

-- `"[{}][{}] {}"`
abbrev pub line : LogLevel → Bytes → Bytes → Bytes
line level name content = 0x5b ∷ fmt level ++ 0x5d ∷ 0x5b ∷ name ++ 0x5d ∷ 0x20 ∷ content

-- `current_name.last().copied().unwrap_or("")`
abbrev pub last_or_empty : List Bytes → Bytes
last_or_empty [] = []
last_or_empty (name ∷ rest) = name

pub entered : Option Bytes → List Bytes → List Bytes
entered none current = current
entered (some name) current = name ∷ current

pub exited : Option Bytes → List Bytes → List Bytes
exited none current = current
exited (some exit_name) [] = []
exited (some exit_name) (last ∷ current) =
    if same_name last exit_name then current else last ∷ current

-- The match on an entry of the queue.
pub handle : Logger → SubscriberMessage → Logger
unfolding entered exited
handle l (new_span id name) = record l { span_names = insert ◌==◌ id name l.span_names }
handle l (enter id) = record l { current_name = entered (names l.span_names id) l.current_name }
handle l (exit id) = record l { current_name = exited (names l.span_names id) l.current_name }
handle l (event content level) = record l {
  lines = l.lines ++ (line level (last_or_empty l.current_name) content ∷ []);
}

-- `logger`, for the entries that it takes from the queue.
pub logger : Logger → List SubscriberMessage → Logger
unfolding handle
logger l [] = l
logger l (m ∷ ms) = logger (handle l m) ms
