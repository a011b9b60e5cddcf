-- ===== src/Presentation/Cache.antt =====
-- `cache_status` with `_key_values`, and the labels of a connection. The summary line is left out: it
-- shows the state, the percentage and the profile in title case.
use thinclient.Prelude.{
  ℕ, ◌≤◌, ◌≡◌, refl, Bool, false, not, ◌&&◌, ◌||◌, Option, none, some, List, [], ◌∷◌, all, arith,
  leb, nat_eq, length, length-take, min, if◌then◌else◌, if_elim, ℤ, pos, negsuc, ◌==◌,
  compare_texts,
}
use thinclient.Text.{Text, codes, is_empty, strip, lower, starts_with, int_of_text}
use thinclient.Dict.{Dict, lookup, insert}
use thinclient.Config.{Connection}
use thinclient.Command.Failure.{lines_from}
use thinclient.Command.Rdp.{setting_or}
use thinclient.Diagnostics.Endpoint.{cut_at, words_from, spaced}
use thinclient.Presentation.{clean_text}

unfoldable pub connection_group : Connection → Text
unfolding clean_text
connection_group c = clean_text c.group (codes "Connections") 48

unfoldable pub connection_description : Connection → Text
unfolding clean_text setting_or
connection_description c =
    let configured = clean_text c.description [] 100 in
    if not (is_empty configured)
    then configured
    else if setting_or "rdp" c.protocol == codes "vnc"
    then codes "Remote support session"
    else if not (is_empty c.app)
    then codes "Remote application"
    else codes "Remote desktop"

unfoldable pub connection_badge : Connection → Text
unfolding setting_or
connection_badge c =
    if setting_or "rdp" c.protocol == codes "vnc"
    then codes "VNC"
    else if not (is_empty c.app)
    then codes "RemoteApp"
    else codes "RDP"

-- [a-z0-9_.-]
abbrev is_key_char : ℕ → Bool
is_key_char c =
    (leb b'a' c && leb c b'z')
    || (leb b'0' c && leb c b'9')
    || nat_eq c b'_'
    || nat_eq c b'.'
    || nat_eq c b'-'

abbrev is_key : Text → Bool
is_key k = not (is_empty k) && leb (length k) 32 && all is_key_char k

keep_value : Option (Text × Text) → Dict Text Text → Dict Text Text
unfolding insert clean_text lower strip
keep_value none d = d
keep_value (some (key, value)) d =
    if is_key (lower (strip key)) then insert (lower (strip key)) (clean_text value [] 256) d else d

values_from : List Text → Dict Text Text → Dict Text Text
unfolding keep_value cut_at
values_from [] d = d
values_from (line ∷ lines) d = values_from lines (keep_value (cut_at b'=' line) d)

unfoldable pub key_values : Text → Dict Text Text
unfolding values_from lines_from
key_values text = values_from (lines_from false [] text) []

abbrev fields_of : List Text → Dict Text Text
fields_of (word ∷ profile ∷ digest ∷ device ∷ more) =
    (codes "state", codes "saved")
    ∷ (codes "profile", profile)
    ∷ (codes "sha256", digest)
    ∷ (codes "device", device)
    ∷ []
fields_of _ = []

-- The success line that version 1.3 wrote.
abbrev saved_values : Dict Text Text → Text → Dict Text Text
saved_values [] text =
    if starts_with (codes "saved ") text then fields_of (words_from [] text) else []
saved_values (v ∷ vs) text = v ∷ vs

pub data CacheState : Type 0 where
  saving : CacheState
  save_failed : CacheState
  saved_and_verified : CacheState
  hit : CacheState
  network : CacheState
  disabled : CacheState

pub record CacheStatus : Type 0 where
  pub cache_state : CacheState
  pub profile : Text
  pub percent : ℕ
  pub cache_detail : Text

abbrev text_or : Text → Option Text → Text
text_or default none = default
text_or default (some t) = t

abbrev first_filled : Text → Text → Text → Text
first_filled a b c = if not (is_empty a) then a else if not (is_empty b) then b else c

-- min(100, max(0, int(s))), or 0 if the text is no number
abbrev percent_of : Option ℤ → ℕ
percent_of none = 0
percent_of (some (pos n)) = min 100 n
percent_of (some (negsuc n)) = 0

abbrev get_text : Text → Dict Text Text → Text
get_text k d = text_or [] (lookup k d)

abbrev status : Text → CacheState → ℕ → Text → CacheStatus
status p s n detail = record { cache_state = s; profile = p; percent = n; cache_detail = detail }

abbrev profile_of : Dict Text Text → Dict Text Text → Dict Text Text → Text
profile_of boot progress saved =
    first_filled (get_text (codes "profile") progress) (get_text (codes "profile") saved)
      (get_text (codes "profile") boot)

status_with : Text → Dict Text Text → Dict Text Text → Dict Text Text → CacheStatus
unfolding lookup clean_text int_of_text words_from
status_with profile boot progress saved =
    let state = get_text (codes "state") boot in
    if get_text (codes "state") progress == codes "saving"
    then status profile saving
        (percent_of (int_of_text (text_or (codes "0") (lookup (codes "percent") progress))))
        (codes "Keep the TCCACHE USB connected until saving finishes.")
    else if get_text (codes "state") saved == codes "failed"
    then status profile save_failed 0 (
        clean_text (get_text (codes "reason") saved) (codes "Check the USB and its free space.")
          160)
    else if get_text (codes "state") saved == codes "saved"
    then status profile saved_and_verified 100
        (clean_text (get_text (codes "device") saved) (codes "Ready for the next boot.") 160)
    else if state == codes "hit"
    then status profile hit 100 (codes "The network root download was skipped.")
    else if (state == codes "network") || (state == codes "miss")
    then status profile network 0 (codes "A TCCACHE USB will be populated when available.")
    else status profile disabled 0 (codes "USB root caching is not active for this boot.")

-- from the values of the three files
unfoldable pub status_of : Dict Text Text → Dict Text Text → Dict Text Text → CacheStatus
unfolding status_with clean_text
status_of boot progress saved =
    status_with (clean_text (profile_of boot progress saved) [] 32) boot progress saved

-- of the texts of the boot, of the save and of its progress
unfoldable pub cache_status : Text → Text → Text → CacheStatus
unfolding status_of key_values
cache_status init_text save_text progress_text =
    status_of (key_values init_text) (key_values progress_text)
      (saved_values (key_values save_text) save_text)

-- the percentage of each state
abbrev pub Fits : CacheState → ℕ → Type 0
Fits saving n = n ≤ 100
Fits save_failed n = n ≡ 0
Fits saved_and_verified n = n ≡ 100
Fits hit n = n ≡ 100
Fits network n = n ≡ 0
Fits disabled n = n ≡ 0

percent_of_bound : (p : Option ℤ) → percent_of p ≤ 100
percent_of_bound none = ground arith
percent_of_bound (some (pos n)) = omega arith
percent_of_bound (some (negsuc n)) = ground arith

pub record IsShowable (s : CacheStatus) : Type 0 where
  pub fits : Fits s.cache_state s.percent
  pub short : length s.profile ≤ 32

profile_short : (value : Text) → length (clean_text value [] 32) ≤ 32
unfolding clean_text
profile_short value = omega (
  arith,
  length-take 32
      (if is_empty (spaced (words_from [] value)) then [] else spaced (words_from [] value)),
)

status_with-IsShowable :
    (p : Text) (boot progress saved : Dict Text Text)
    → length p ≤ 32
    → IsShowable (status_with p boot progress saved)
unfolding status_with
status_with-IsShowable p boot progress saved h =
    if_elim {A = CacheStatus} IsShowable (get_text (codes "state") progress == codes "saving")
      (λ e. record {
        fits =
            percent_of_bound
              (int_of_text (text_or (codes "0") (lookup (codes "percent") progress)));
        short = h;
      })
      (λ e.
        if_elim {A = CacheStatus} IsShowable (get_text (codes "state") saved == codes "failed")
          (λ q. record { fits = refl; short = h })
          (λ q.
            if_elim {A = CacheStatus} IsShowable (get_text (codes "state") saved == codes "saved")
              (λ u. record { fits = refl; short = h })
              (λ u.
                if_elim {A = CacheStatus} IsShowable (get_text (codes "state") boot == codes "hit")
                  (λ v. record { fits = refl; short = h })
                  (λ v.
                    if_elim {A = CacheStatus} IsShowable
                      ((get_text (codes "state") boot == codes "network")
                        || (get_text (codes "state") boot == codes "miss"))
                      (λ w. record { fits = refl; short = h })
                      (λ w. record { fits = refl; short = h })))))

status_of-IsShowable :
    (boot progress saved : Dict Text Text) → IsShowable (status_of boot progress saved)
unfolding status_of
status_of-IsShowable boot progress saved =
    status_with-IsShowable _ boot progress saved (profile_short (profile_of boot progress saved))

-- Whatever the three files hold, the percentage that is shown fits the state: at most 100 while a save
-- goes on, 100 where the cache was saved or used, and 0 otherwise; and the profile has at most 32
-- characters.
pub cache_status-IsShowable :
    (init_text save_text progress_text : Text)
    → IsShowable (cache_status init_text save_text progress_text)
unfolding cache_status
cache_status-IsShowable init_text save_text progress_text =
    status_of-IsShowable (key_values init_text) (key_values progress_text)
      (saved_values (key_values save_text) save_text)
