-- ===== src/Share/Reveal.antt =====
-- static/share.js, `reveal`: the plaintext is on show for a limited time, or for good once the reader
-- asks for it. Times are milliseconds; `-` on ℕ stops at 0, which is the source's `Math.max(0, …)`.
pub mod Visibility
pub mod Countdown
use key_bank.Base.{
  ℕ, ◌+◌, ◌-◌, ◌*◌, ◌/◌, Bool, true, false, ◌&&◌, not, List, [], ◌∷◌, ◌++◌, Text, codes, Result, ok,
  err, ◌==◌, if◌then◌else◌,
}
use key_bank.Js.Number.{decimal}
use key_bank.Ui.{
  plural, Status, set_status, success, error, CopyButton, Clipboard, copy_text, timeout,
}

pub data Bar : Type 0 where
  running stopped : Bar

-- What `reveal` sets of the result's elements, and its timer.
pub record Shown : Type 0 where
  pub output : Text
  pub hidden : Bool
  pub countdown : Text
  pub infinite : Bool
  pub label : Text
  pub unit : Text
  pub bar : Bar
  pub keep_disabled : Bool
  pub keep_label : Text
  pub copy : CopyButton
  pub timer : Bool
  pub hide_at : ℕ
  pub status : Status

-- The interval's tick at a time, a click on "Keep visible", a click on "Copy plaintext" once the
-- clipboard has answered it, and the timer that puts back the label of that button.
pub data Event : Type 0 where
  tick : ℕ → Event
  keep : Event
  copied : Clipboard → Event
  copy_timer : Event

module _ (to_locale_string : ℕ → Text) (auto_hide_seconds : ℕ) where
  abbrev pub remaining_label : ℕ → Text
  remaining_label seconds = plural to_locale_string seconds (codes "second") ++ codes " remaining"

  abbrev pub unit_text : ℕ → Text
  unit_text seconds = if seconds == 1 then codes " second" else codes " seconds"

  unfoldable pub render_remaining : Shown → ℕ → Shown
  render_remaining s seconds = record s {
    countdown = decimal seconds;
    infinite = false;
    label = remaining_label seconds;
    unit = unit_text seconds;
  }

  unfoldable pub hide : Shown → Shown
  hide s = record s {
    timer = false;
    output = [];
    hidden = true;
    status =
        set_status
          (codes "Plaintext hidden again after "
            ++ (plural to_locale_string auto_hide_seconds (codes "second")
                ++ codes ". It cannot be shown again: the key no longer exists."))
          success;
  }

  -- `Math.max(0, Math.ceil((hideAt - now) / 1000))`
  unfoldable pub remaining : Shown → ℕ → ℕ
  remaining s now = (s.hide_at - now + 999) / 1000

  unfoldable pub on_tick : Shown → ℕ → Shown
  unfolding render_remaining hide remaining
  on_tick s now =
      let shown = render_remaining s (remaining s now) in
      if remaining s now == 0 then hide shown else shown

  unfoldable pub keep_visible : Shown → Shown
  keep_visible s = record s {
    timer = false;
    countdown = codes "∞";
    infinite = true;
    label = codes "No time limit";
    unit = codes " seconds";
    bar = stopped;
    keep_disabled = true;
    keep_label = codes "Visible until you leave this page";
    status =
        set_status (codes "Plaintext will stay visible until you leave or reload this page.")
          success;
  }

  unfoldable pub reveal : ℕ → Text → Status → Shown
  reveal now plaintext status = record {
    output = plaintext;
    hidden = false;
    countdown = decimal auto_hide_seconds;
    infinite = false;
    label = remaining_label auto_hide_seconds;
    unit = unit_text auto_hide_seconds;
    bar = running;
    keep_disabled = false;
    keep_label = codes "Keep visible";
    copy = record { label = codes "Copy"; copied = false; timers = [] };
    timer = true;
    hide_at = now + auto_hide_seconds * 1000;
    status = status;
  }

  abbrev pub copy_answered : Shown → CopyButton → Result Bool → Shown
  copy_answered s button (ok written) = record s { copy = button }
  copy_answered s button (err e) = record s {
    copy = button;
    status = set_status (codes "Copy failed. Select the text and copy it manually.") error;
  }

  unfoldable pub on_copied : Shown → Clipboard → Shown
  on_copied s clipboard =
      let answer = copy_text s.copy clipboard in copy_answered s answer.button answer.worked

  unfoldable pub on_copy_timer : Shown → Shown
  on_copy_timer s = record s { copy = timeout s.copy }

  -- A cleared interval does not tick, and a button that is disabled or hidden is not clicked.
  unfoldable pub step : Shown → Event → Shown
  unfolding on_tick keep_visible on_copied on_copy_timer
  step s (tick now) = if s.timer then on_tick s now else s
  step s keep = if not s.keep_disabled && not s.hidden then keep_visible s else s
  step s (copied clipboard) = on_copied s clipboard
  step s copy_timer = on_copy_timer s

  unfoldable pub run : Shown → List Event → Shown
  run s [] = s
  run s (e ∷ es) = run (step s e) es
