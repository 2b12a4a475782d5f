-- ===== src/Logging/Spans/Nesting.antt =====
-- src/extensions/logging.rs: what is printed for spans that are properly nested.
use rucoonos.Prelude.{
  ℕ, ◌≤◌, ◌≡◌, ◌↔◌, refl, sym, ap, ◌∙◌, arith, true, ◌==◌, ==_self, if◌then◌else◌, List, [], ◌∷◌,
  ◌++◌, append_assoc, append-nil, Option, none, some, Bytes,
}
use rucoonos.Net.IpMap.{insert}
use rucoonos.Logging.{LogLevel}
use rucoonos.Logging.Order.{severity, partial_cmp-severity}
use rucoonos.Logging.Spans.{
  Level, from, SubscriberMessage, enter, exit, SerialSubscriber, enabled, Logger, names, same_name,
  line, last_or_empty, entered, exited, handle, logger,
}

-- Calls of `tracing` in which each span that is entered is left again: nothing, a call and what
-- follows it, or a span, what happens inside it, and what follows it.
pub data Trace : Type 0 where
  done : Trace
  event : (content : Bytes) (level : LogLevel) → Trace → Trace
  new_span : (id : ℕ) (name : Bytes) → Trace → Trace
  span : (id : ℕ) (inside after : Trace) → Trace

unfoldable pub messages : Trace → List SubscriberMessage
messages Trace.done = []
messages (Trace.event content level t) = SubscriberMessage.event content level ∷ messages t
messages (Trace.new_span id name t) = SubscriberMessage.new_span id name ∷ messages t
messages (Trace.span id inside after) = enter id ∷ messages inside ++ exit id ∷ messages after

-- The names of the spans after the calls.
unfoldable pub names_after : List (ℕ × Bytes) → Trace → List (ℕ × Bytes)
names_after ns Trace.done = ns
names_after ns (Trace.event content level t) = names_after ns t
names_after ns (Trace.new_span id name t) = names_after (insert ◌==◌ id name ns) t
names_after ns (Trace.span id inside after) = names_after (names_after ns inside) after

-- Each span has a name when it is entered, and the same one when it is left.
abbrev pub IsNamed : List (ℕ × Bytes) → Trace → Type 0
IsNamed ns Trace.done = Unit {0}
IsNamed ns (Trace.event content level t) = IsNamed ns t
IsNamed ns (Trace.new_span id name t) = IsNamed (insert ◌==◌ id name ns) t
IsNamed ns (Trace.span id inside after) =
    ((name : Bytes) × (names ns id ≡ some name) × (names (names_after ns inside) id ≡ some name))
    × IsNamed ns inside
    × IsNamed (names_after ns inside) after

abbrev name_or : Option Bytes → Bytes
name_or none = []
name_or (some name) = name

-- A line for each event, with the name of the innermost span around it; `top` is the name of the span
-- around the whole.
unfoldable pub lines_of : List (ℕ × Bytes) → Bytes → Trace → List Bytes
lines_of ns top Trace.done = []
lines_of ns top (Trace.event content level t) = line level top content ∷ lines_of ns top t
lines_of ns top (Trace.new_span id name t) = lines_of (insert ◌==◌ id name ns) top t
lines_of ns top (Trace.span id inside after) =
    lines_of ns (name_or (names ns id)) inside ++ lines_of (names_after ns inside) top after

logger-append :
    (l : Logger) (xs ys : List SubscriberMessage) → logger l (xs ++ ys) ≡ logger (logger l xs) ys
unfolding logger
logger-append l [] ys = refl
logger-append l (x ∷ xs) ys = logger-append (handle l x) xs ys

same_name_self : (name : Bytes) → same_name name name ≡ true
same_name_self [] = refl
same_name_self (x ∷ xs) = rw (==_self x, same_name_self xs) refl

abbrev pub logged : Logger → Trace → Logger
logged l t = record {
  span_names = names_after l.span_names t;
  current_name = l.current_name;
  lines = l.lines ++ lines_of l.span_names (last_or_empty l.current_name) t;
}

-- Where each span has a name when it is entered and keeps it until it is left, the task that writes the
-- log prints a line for each event of properly nested calls, in their order, with the level, the name
-- of the innermost span around the event, and the content; the stack of names is afterwards as before.
pub logger-logged :
    (l : Logger) (t : Trace) → IsNamed l.span_names t → logger l (messages t) ≡ logged l t
unfolding logger handle entered exited messages names_after lines_of
logger-logged l Trace.done v = ap (λ xs. record l { lines = xs }) (sym (append-nil l.lines))
logger-logged l (Trace.event content level t) v =
    logger-logged (handle l (SubscriberMessage.event content level)) t v
    ∙ ap (λ xs. record (logged l t) { lines = xs })
        (append_assoc l.lines (line level (last_or_empty l.current_name) content ∷ []) _)
logger-logged l (Trace.new_span id name t) v =
    logger-logged (handle l (SubscriberMessage.new_span id name)) t v
logger-logged l (Trace.span id inside after) ((name, e, f), v, w) =
    let ns = l.span_names in
    let inner : Logger = record l { current_name = name ∷ l.current_name } in
    let outer : Logger = record (logged inner inside) { current_name = l.current_name } in
    ap
      (λ n.
        logger (record l { current_name = entered n l.current_name })
          (messages inside ++ exit id ∷ messages after))
      e
    ∙ logger-append inner (messages inside) (exit id ∷ messages after)
    ∙ ap (λ k. logger k (exit id ∷ messages after)) (logger-logged inner inside v)
    ∙ ap
        (λ n.
          logger (record outer { current_name = exited n (name ∷ l.current_name) })
            (messages after))
        f
    ∙ ap
        (λ b.
          logger
            (record outer { current_name = if b then l.current_name else name ∷ l.current_name })
            (messages after))
        (same_name_self name)
    ∙ logger-logged outer after w
    ∙ ap (λ xs. record (logged outer after) { lines = xs })
        (append_assoc l.lines (lines_of ns name inside) _)
    ∙ ap
        (λ n. record (logged outer after) {
          lines =
              l.lines
              ++ (lines_of ns n inside
                  ++ lines_of (names_after ns inside) (last_or_empty l.current_name) after);
        })
        (sym (ap name_or e))

-- A call is let through exactly if its level is at least as severe as the subscriber's.
enabled-severity :
    (s : SerialSubscriber) (metadata : Level)
    → (enabled s metadata ≡ true) ↔ (severity s.level ≤ severity (from metadata))
unfolding enabled
enabled-severity s metadata = rw (partial_cmp-severity (from metadata) s.level) (ground arith)
