-- ===== src/Ui/Copy.antt =====
-- The confirmation on a copy button: when its label comes back.
use key_bank.Base.{◌≡◌, refl, true, false, [], codes, arith}
use key_bank.Ui.{CopyButton, writes, copy_text, timeout}

-- No confirmation is on show.
pub record IsQuiet (b : CopyButton) : Type 0 where
  pub unmarked : b.copied ≡ false
  pub no_timers : b.timers ≡ []

-- A click on a button without a confirmation or a timer, with a clipboard that writes, shows the
-- confirmation, and when its timer has run the button is as before.
pub timeout-copy_text :
    (b : CopyButton)
    → IsQuiet b
    → ((copy_text b writes).button.label ≡ codes "Copied")
      × ((copy_text b writes).button.copied ≡ true)
      × (timeout (copy_text b writes).button ≡ b)
unfolding copy_text timeout
timeout-copy_text b h = (refl, refl, ground arith)

-- On a button without a confirmation or a timer, after a second click before the first timer has run,
-- the label that the last timer puts back is the confirmation itself, whatever the label was, and no
-- timer is left to change it.
pub copy_twice_keeps_confirmation :
    (b : CopyButton)
    → IsQuiet b
    → let twice = (copy_text (copy_text b writes).button writes).button in
      timeout (timeout twice) ≡ record { label = codes "Copied"; copied = false; timers = [] }
unfolding copy_text timeout
copy_twice_keeps_confirmation b h = rw h.no_timers refl
