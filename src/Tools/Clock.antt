-- ===== src/Tools/Clock.antt =====
-- app/tools/clock.py: the time in a named zone. The clock, the zone database and the formatting are
-- parameters.
use agentic_rag.Prelude.{String, Option, none, some, if◌then◌else◌}
use agentic_rag.Prelude.Text.{is_blank, strip}
use agentic_rag.Core.Errors.{Result, ok, raise, tool_error}

-- the instant that the clock shows, in UTC, and in a zone if there is one of that name
pub record Clock : Type 0 where
  pub now_text : String
  pub in_zone : String → Option String

abbrev pub zoned : Option String → Result String
zoned none = raise tool_error
zoned (some text) = ok text

-- `CurrentTimeTool.execute`
unfoldable pub current_time : Clock → String → Result String
unfolding strip
current_time clock text =
    if is_blank (strip text) then ok clock.now_text else zoned (clock.in_zone (strip text))
