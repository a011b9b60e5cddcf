-- ===== src/Presentation.antt =====
-- The texts of the screens: overlay/usr/local/lib/thinclient/uxstate.py.
pub mod Rows
pub mod Lines
pub mod Outcomes
pub mod Reading
pub mod Roundtrip
pub mod Cache
pub mod Support
mod Tests
use thinclient.Prelude.{ℕ, ◌-◌, ◌&&◌, ◌||◌, Option, List, [], ◌∷◌, leb, nat_eq, take, if◌then◌else◌}
use thinclient.Text.{Text, is_empty}
use thinclient.Diagnostics.Endpoint.{words_from, spaced}

-- str.upper, as far as the program compares its result: two characters beyond ASCII have one ASCII
-- letter as their upper case, and no prefix that is compared begins as the upper case of one that
-- has more.
unfoldable pub upper_case : Text → Text
upper_case [] = []
upper_case (c ∷ s) =
    (if leb b'a' c && leb c b'z'
      then c - 32
      else if nat_eq c 0x131
      then b'I'
      else if nat_eq c 0x17F
      then b'S'
      else c)
    ∷ upper_case s

-- one line of a text, or what stands for an empty one
unfoldable pub clean_text : Text → Text → ℕ → Text
unfolding words_from
clean_text value fallback limit =
    let text = spaced (words_from [] value) in take limit (if is_empty text then fallback else text)
