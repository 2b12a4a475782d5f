-- ===== src/Tests/Output.antt =====
-- The log and the screen.
use rucoonos.Prelude.{◌≡◌, ◌+◌, refl, arith, [], ◌∷◌, zeros, length-zeros}
use rucoonos.Net.IpMap.{get, insert}
use rucoonos.Hardware.Loop.{returned}
use rucoonos.Logging.{LogLevel}
use rucoonos.Logging.Spans.{Logger, logger, line}
use rucoonos.Logging.Spans.Nesting.{
  Trace, done, event, new_span, span, messages, names_after, lines_of, logger-logged,
}
use rucoonos.Net.Wire.{debug}
use rucoonos.Screen.{Writer, FrameBufferInfo, Color, new_line, draw}
use rucoonos.Screen.Text.{new_line-scrolls}
use rucoonos.Screen.Pixels.{painted, draw-painted}

abbrev empty : Logger
empty = record { span_names = []; current_name = []; lines = [] }

-- A span inside another, with events before, inside and after it.
abbrev trace : Trace
trace = new_span 1 (0x61 ∷ []) (
    span 1
      (event (0x30 ∷ []) LogLevel.info (
        new_span 2 (0x62 ∷ [])
          (span 2 (event (0x31 ∷ []) LogLevel.warn done) (event (0x32 ∷ []) LogLevel.info done))))
      (event (0x33 ∷ []) LogLevel.error done))

logger-logged_example : logger empty (messages trace) ≡ record {
  span_names = (1, 0x61 ∷ []) ∷ (2, 0x62 ∷ []) ∷ [];
  current_name = [];
  lines =
      line LogLevel.info (0x61 ∷ []) (0x30 ∷ [])
      ∷ line LogLevel.warn (0x62 ∷ []) (0x31 ∷ [])
      ∷ line LogLevel.info (0x61 ∷ []) (0x32 ∷ [])
      ∷ line LogLevel.error [] (0x33 ∷ [])
      ∷ [];
}
unfolding names_after lines_of get insert
logger-logged_example =
    logger-logged empty trace (((0x61 ∷ []), refl, refl), (((0x62 ∷ []), refl, refl), tt, tt), tt)

abbrev writer : Writer
writer = record {
  column_position = 80;
  color_code = 14;
  chars = λ i j. record { ascii_character = i + j; color_code = 14 };
}

new_line-scrolls_example :
    ((new_line writer).chars 3 5 ≡ record { ascii_character = 9; color_code = 14 })
    × ((new_line writer).column_position ≡ 0)
new_line-scrolls_example = new_line-scrolls writer 3 5 (omega arith) (omega arith)

-- Four pixels in two rows.
abbrev info : FrameBufferInfo
info = record { byte_len = 12; horizontal_resolution = 2; bytes_per_pixel = 3 }

abbrev color : Color
color = record { red = 1; green = 2; blue = 3 }

draw-painted_example : draw debug info 0 1 color (zeros 12) ≡ returned (painted color 6 (zeros 12))
draw-painted_example =
    draw-painted debug info 0 1 color (zeros 12) (omega arith) (length-zeros 12) (omega arith)
