-- ===== src/Report.antt =====
-- interoperability_report.py: the processes of a test, its verdict, and the choice of the tests.
pub mod Publisher
pub mod Subscriber
pub mod Verdict
pub mod Selection
pub mod Waiting
pub mod Message
pub mod Handshake
mod Tests
use dds_rtps.Prelude.{Bool, Option, Text, codes, ◌++◌, ◌||◌}
use dds_rtps.ReturnCode.{ReturnCode}
use dds_rtps.Texts.{in_text, is_suffix}

-- The values of the list of codes that the processes write to; `none` is the number with which
-- `manager.list(range(num_entities))` fills it.
abbrev pub Produced : Type 0
Produced = Option ReturnCode

-- `'-P ' in element or element.endswith('-P')`, and such for `-S` and `-w`
unfoldable pub has_option : Text → Text → Bool
unfolding in_text is_suffix
has_option o element = in_text (o ++ codes " ") element || is_suffix o element
