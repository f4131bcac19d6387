-- ===== src/Share/Reveal/Countdown.antt =====
-- static/share.js, `reveal`: what a tick shows.
use key_bank.Base.{ℕ, ◌+◌, ◌-◌, ◌*◌, ◌≤◌, ◌<◌, ◌≡◌, true, Text, arith}
use key_bank.Js.Number.{decimal}
use key_bank.Share.Reveal.{Shown, tick, remaining, step}

module _ (to_locale_string : ℕ → Text) (auto_hide_seconds : ℕ) where
  -- The seconds of a tick are the time left, none after the limit, rounded up.
  remaining_exact :
      (s : Shown) (now : ℕ)
      → let left = remaining to_locale_string auto_hide_seconds s now in
        (s.hide_at - now ≤ left * 1000) × (left * 1000 < s.hide_at - now + 1000)
  unfolding remaining
  remaining_exact s now = (omega arith, omega arith)

  tick_countdown :
      (s : Shown) (now : ℕ)
      → s.timer ≡ true
      → (step to_locale_string auto_hide_seconds s (tick now)).countdown
        ≡ decimal (remaining to_locale_string auto_hide_seconds s now)
  unfolding step
  tick_countdown s now on = ground arith

  -- While the timer runs, a tick shows a whole number of seconds: the time left, none after the limit,
  -- rounded up to whole seconds.
  pub tick_shows :
      (s : Shown) (now : ℕ)
      → s.timer ≡ true
      → (left : ℕ) × ((step to_locale_string auto_hide_seconds s (tick now)).countdown
          ≡ decimal left)
        × (s.hide_at - now ≤ left * 1000)
        × (left * 1000 < s.hide_at - now + 1000)
  tick_shows s now on =
      let (most, least) = remaining_exact s now in
      (remaining to_locale_string auto_hide_seconds s now, tick_countdown s now on, most, least)
