-- ===== src/Presentation/Support.antt =====
-- `changelog_text` and `support_report`: the texts that a user reads or copies. What the files hold is
-- an argument, and the values that the report shows are texts.
use thinclient.Prelude.{
  ℕ, ◌+◌, Option, none, some, List, [], ◌∷◌, ◌++◌, map, nat_eq, ltb, length, take, max,
  if◌then◌else◌, compare_texts,
}
use thinclient.Text.{Text, codes, is_empty, strip, rstrip}
use thinclient.Dict.{Dict, lookup}
use thinclient.Diagnostics.Report.{joined}
use thinclient.Presentation.{clean_text}

abbrev pub changelog_limit : ℕ
changelog_limit = 98304

abbrev no_notes : Text
no_notes = codes "Release notes are not available in this image."

-- text.replace("\x00", "")
unfoldable pub without_nul : Text → Text
without_nul [] = []
without_nul (c ∷ s) = let rest = without_nul s in if nat_eq c 0 then rest else c ∷ rest

shorten : ℕ → Text → Text
unfolding rstrip
shorten limit text =
    if is_empty text
    then no_notes
    else if ltb limit (length text)
    then rstrip (take limit text) ++ codes "\n\n[Older entries omitted]"
    else text

-- of the file's contents, if it can be read
unfoldable pub changelog_text : Option Text → ℕ → Text
unfolding shorten without_nul strip
changelog_text none limit = no_notes
changelog_text (some contents) limit =
    shorten limit (strip (without_nul (take (max 1 limit + 1) contents)))

abbrev value_of : Text → Dict Text Text → Text
value_of key values = text_or_none (lookup key values)
  where
    text_or_none : Option Text → Text
    text_or_none none = []
    text_or_none (some t) = t

abbrev shown_line : Text → Text → Text → ℕ → Text
shown_line label value fallback limit = label ++ codes ": " ++ clean_text value fallback limit

-- key.replace("_", " ")
abbrev spaced_key : Text → Text
spaced_key key = map (λ c. if nat_eq c b'_' then b' ' else c) key

configuration_line : Text × Text → Text
configuration_line (key, value) = codes "Configuration " ++ spaced_key key ++ codes ": " ++ value

unknown : Text
unknown = codes "Unknown"

hardware_line : Dict Text Text → Text → Text
unfolding lookup clean_text unknown
hardware_line hardware key = shown_line key (value_of key hardware) unknown 300

error_lines : Text → List Text
unfolding clean_text
error_lines last_error =
    if is_empty last_error then [] else shown_line (codes "Last error") last_error [] 240 ∷ []

-- with what `configuration_status` gives
unfoldable pub support_report :
    (info hardware cache configuration : Dict Text Text)
    → (hostname address last_error : Text) → Text
unfolding joined lookup clean_text unknown configuration_line hardware_line error_lines
support_report info hardware cache configuration hostname address last_error = joined (
    (codes "ThinClient support report"
      ∷ shown_line (codes "Version") (value_of (codes "version") info) unknown 160
      ∷ shown_line (codes "Image profile") (value_of (codes "profile") info) unknown 160
      ∷ shown_line (codes "System") (value_of (codes "base") info) unknown 160
      ∷ shown_line (codes "Kernel") (value_of (codes "kernel") info) unknown 160
      ∷ shown_line (codes "Device") hostname unknown 160
      ∷ shown_line (codes "Address") address (codes "No network") 160
      ∷ shown_line (codes "Boot/cache") (value_of (codes "summary") cache) unknown 160
      ∷ [])
    ++ map configuration_line configuration
    ++ map (hardware_line hardware) (
        codes "Architecture"
        ∷ codes "Processor"
        ∷ codes "Memory"
        ∷ codes "Graphics"
        ∷ codes "Network"
        ∷ [])
    ++ error_lines last_error
    ++ (codes "No credentials are included." ∷ []))
