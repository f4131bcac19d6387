-- ===== src/Ui.antt =====
-- static/ui.js: texts and small effects that the pages share. An element is a record of what the
-- code sets; `to_locale_string` is the locale's way of writing a number.
pub mod Duration
pub mod Copy
use key_bank.Base.{
  ℕ, ◌+◌, ◌/◌, ◌%◌, Bool, true, false, List, [], ◌∷◌, ◌++◌, Text, codes, Error, Result, ok, err,
  ◌>>=◌, length, ◌==◌, if◌then◌else◌,
}
use key_bank.Link.{ParsedUrl, Parts, split_share_url}

pub data StatusState : Type 0 where
  idle working success error : StatusState

pub record Status : Type 0 where
  pub text : Text
  pub state : StatusState

abbrev pub set_status : Text → StatusState → Status
set_status message state = record { text = message; state = state }

unfoldable pub plural : (ℕ → Text) → ℕ → Text → Text
plural to_locale_string count unit =
    to_locale_string count ++ (b' ' ∷ (unit ++ (if count == 1 then [] else codes "s")))

-- The units of `formatDuration`, the largest first, each with its seconds.
abbrev pub duration_units : List (Text × ℕ)
duration_units = (codes "day", 86400) ∷ (codes "hour", 3600) ∷ (codes "minute", 60) ∷ []

-- The loop of `formatDuration`.
unfoldable pub format_with : (ℕ → Text) → ℕ → List (Text × ℕ) → Text
format_with to_locale_string seconds [] = plural to_locale_string seconds (codes "second")
format_with to_locale_string seconds ((unit, size) ∷ units) =
    if seconds % size == 0
    then plural to_locale_string (seconds / size) unit
    else format_with to_locale_string seconds units

unfoldable pub format_duration : (ℕ → Text) → ℕ → Text
unfolding format_with
format_duration to_locale_string seconds = format_with to_locale_string seconds duration_units

-- The button of `copyText`: its label, the mark `data-copied`, and for each timer that has not run the
-- label that it will put back, the oldest first.
pub record CopyButton : Type 0 where
  pub label : Text
  pub copied : Bool
  pub timers : List Text

-- What the browser's clipboard does.
pub data Clipboard : Type 0 where
  unavailable : Clipboard
  writes : Clipboard
  refuses : Error → Clipboard

pub record Copied : Type 0 where
  pub button : CopyButton
  pub worked : Result Bool

unfoldable pub copy_text : CopyButton → Clipboard → Copied
copy_text button unavailable = record { button = button; worked = ok false }
copy_text button (refuses e) = record { button = button; worked = err e }
copy_text button writes = record {
  button = record {
    label = codes "Copied";
    copied = true;
    timers = button.timers ++ button.label ∷ [];
  };
  worked = ok true;
}

run_timer : CopyButton → List Text → CopyButton
run_timer button [] = button
run_timer button (original ∷ timers) = record { label = original; copied = false; timers = timers }

-- The oldest timer of `copyText` runs, two seconds after its click.
unfoldable pub timeout : CopyButton → CopyButton
unfolding run_timer
timeout button = run_timer button button.timers

-- The figure that shows the parts of a link.
pub record Anatomy : Type 0 where
  pub path : Text
  pub fragment : Text
  pub size : Text

unfoldable pub fill_anatomy : (ℕ → Text) → Parts → Text → Anatomy
fill_anatomy to_locale_string parts [] = record {
  path = parts.sent;
  fragment = codes "# (missing)";
  size = [];
}
fill_anatomy to_locale_string parts (c ∷ kept) = record {
  path = parts.sent;
  fragment = c ∷ kept;
  size = codes ", " ++ plural to_locale_string (length (c ∷ kept)) (codes "character");
}

unfoldable pub render_anatomy : (Text → Result ParsedUrl) → (ℕ → Text) → Text → Result Anatomy
unfolding fill_anatomy
render_anatomy parse_url to_locale_string href = do
  parts ← split_share_url parse_url href
  ok (fill_anatomy to_locale_string parts parts.kept)
