-- ===== src/Share/Reveal/Visibility.antt =====
-- For how long the plaintext is on show.
use key_bank.Base.{
  ℕ, ◌+◌, ◌*◌, ◌≡◌, ◌∙◌, refl, sym, subst, Bool, true, false, ◌||◌, List, [], ◌∷◌, Text, arith, leb,
  if◌then◌else◌, Bool-cases, inl, inr,
}
use key_bank.Ui.{Status, Clipboard, unavailable, writes, refuses, copy_text}
use key_bank.Share.Reveal.{Shown, Event, tick, keep, copied, copy_timer, reveal, step, run}

-- Whether the time runs out before the reader keeps the text: the specification.
pub expires : ℕ → List Event → Bool
expires hide_at [] = false
expires hide_at (tick now ∷ es) = leb hide_at now || expires hide_at es
expires hide_at (keep ∷ es) = false
expires hide_at (copied clipboard ∷ es) = expires hide_at es
expires hide_at (copy_timer ∷ es) = expires hide_at es

module _ (to_locale_string : ℕ → Text) (auto_hide_seconds : ℕ) where
  -- Neither hidden nor kept so far.
  record IsCounting (plaintext : Text) (hide_at : ℕ) (s : Shown) : Type 0 where
    output_is : s.output ≡ plaintext
    visible : s.hidden ≡ false
    keepable : s.keep_disabled ≡ false
    ticking : s.timer ≡ true
    ends_at : s.hide_at ≡ hide_at

  IsHidden : Shown → Type 0
  IsHidden s = (s.timer ≡ false) × (s.hidden ≡ true) × (s.output ≡ [])

  IsKept : Text → Shown → Type 0
  IsKept plaintext s =
      (s.timer ≡ false) × (s.keep_disabled ≡ true) × (s.hidden ≡ false) × (s.output ≡ plaintext)

  -- What a copy does not touch.
  record IsAlike (s s' : Shown) : Type 0 where
    same_output : s'.output ≡ s.output
    same_hidden : s'.hidden ≡ s.hidden
    same_keep : s'.keep_disabled ≡ s.keep_disabled
    same_timer : s'.timer ≡ s.timer
    same_end : s'.hide_at ≡ s.hide_at

  copied-IsAlike :
      (s : Shown) (clipboard : Clipboard)
      → IsAlike s (step to_locale_string auto_hide_seconds s (copied clipboard))
  unfolding step copy_text
  copied-IsAlike s unavailable = record {
    same_output = refl;
    same_hidden = refl;
    same_keep = refl;
    same_timer = refl;
    same_end = refl;
  }
  copied-IsAlike s writes = record {
    same_output = refl;
    same_hidden = refl;
    same_keep = refl;
    same_timer = refl;
    same_end = refl;
  }
  copied-IsAlike s (refuses e) = record {
    same_output = refl;
    same_hidden = refl;
    same_keep = refl;
    same_timer = refl;
    same_end = refl;
  }

  copy_timer-IsAlike :
      (s : Shown) → IsAlike s (step to_locale_string auto_hide_seconds s copy_timer)
  unfolding step
  copy_timer-IsAlike s = record {
    same_output = refl;
    same_hidden = refl;
    same_keep = refl;
    same_timer = refl;
    same_end = refl;
  }

  IsAlike-IsHidden : (s s' : Shown) → IsAlike s s' → IsHidden s → IsHidden s'
  unfolding IsHidden
  IsAlike-IsHidden s s' a (timer, hidden, output) =
      (a.same_timer ∙ timer, a.same_hidden ∙ hidden, a.same_output ∙ output)

  IsAlike-IsKept :
      (plaintext : Text) (s s' : Shown) → IsAlike s s' → IsKept plaintext s → IsKept plaintext s'
  unfolding IsKept
  IsAlike-IsKept plaintext s s' a (timer, kept, hidden, output) =
      (a.same_timer ∙ timer, a.same_keep ∙ kept, a.same_hidden ∙ hidden, a.same_output ∙ output)

  IsAlike-IsCounting :
      (plaintext : Text) (hide_at : ℕ) (s s' : Shown)
      → IsAlike s s'
      → IsCounting plaintext hide_at s
      → IsCounting plaintext hide_at s'
  IsAlike-IsCounting plaintext hide_at s s' a c = record {
    output_is = a.same_output ∙ c.output_is;
    visible = a.same_hidden ∙ c.visible;
    keepable = a.same_keep ∙ c.keepable;
    ticking = a.same_timer ∙ c.ticking;
    ends_at = a.same_end ∙ c.ends_at;
  }

  step_idle :
      (s : Shown) (now : ℕ)
      → s.timer ≡ false
      → step to_locale_string auto_hide_seconds s (tick now) ≡ s
  unfolding step
  step_idle s now h = rw h refl

  step-IsHidden :
      (s : Shown) (e : Event) → IsHidden s → IsHidden (step to_locale_string auto_hide_seconds s e)
  unfolding step IsHidden
  step-IsHidden s (tick now) h = subst IsHidden (sym (step_idle s now h.0)) h
  step-IsHidden s keep h = ground arith
  step-IsHidden s (copied clipboard) h = IsAlike-IsHidden s _ (copied-IsAlike s clipboard) h
  step-IsHidden s copy_timer h = IsAlike-IsHidden s _ (copy_timer-IsAlike s) h

  step-IsKept :
      (plaintext : Text) (s : Shown) (e : Event)
      → IsKept plaintext s
      → IsKept plaintext (step to_locale_string auto_hide_seconds s e)
  unfolding step IsKept
  step-IsKept plaintext s (tick now) h = subst (IsKept plaintext) (sym (step_idle s now h.0)) h
  step-IsKept plaintext s keep h = ground arith
  step-IsKept plaintext s (copied clipboard) h =
      IsAlike-IsKept plaintext s _ (copied-IsAlike s clipboard) h
  step-IsKept plaintext s copy_timer h = IsAlike-IsKept plaintext s _ (copy_timer-IsAlike s) h

  module _ (plaintext : Text) (hide_at : ℕ) (s : Shown) (c : IsCounting plaintext hide_at s) where
    tick_late :
        (now : ℕ)
        → leb hide_at now ≡ true
        → IsHidden (step to_locale_string auto_hide_seconds s (tick now))
    unfolding step IsHidden
    tick_late now late = ground arith

    tick_early :
        (now : ℕ)
        → leb hide_at now ≡ false
        → IsCounting plaintext hide_at (step to_locale_string auto_hide_seconds s (tick now))
    unfolding step
    tick_early now early = ground arith

    keep_now : IsKept plaintext (step to_locale_string auto_hide_seconds s keep)
    unfolding step IsKept
    keep_now = ground arith

  abbrev Verdict : Text → Bool → Shown → Type 0
  Verdict plaintext gone s = (s.hidden ≡ gone) × (s.output ≡ (if gone then [] else plaintext))

  hidden_for_good :
      (plaintext : Text) (s : Shown) (es : List Event)
      → IsHidden s
      → Verdict plaintext true (run to_locale_string auto_hide_seconds s es)
  unfolding run IsHidden
  hidden_for_good plaintext s [] (h, hid, out) = (hid, out)
  hidden_for_good plaintext s (e ∷ es) h =
      hidden_for_good plaintext (step to_locale_string auto_hide_seconds s e) es
        (step-IsHidden s e h)

  kept_for_good :
      (plaintext : Text) (s : Shown) (es : List Event)
      → IsKept plaintext s
      → Verdict plaintext false (run to_locale_string auto_hide_seconds s es)
  unfolding run IsKept
  kept_for_good plaintext s [] (h, k, hid, out) = (hid, out)
  kept_for_good plaintext s (e ∷ es) h =
      kept_for_good plaintext (step to_locale_string auto_hide_seconds s e) es
        (step-IsKept plaintext s e h)

  run_counting :
      (plaintext : Text) (hide_at : ℕ) (s : Shown) (es : List Event)
      → IsCounting plaintext hide_at s
      → Verdict plaintext (expires hide_at es) (run to_locale_string auto_hide_seconds s es)
  unfolding run expires
  run_counting plaintext hide_at s [] c = (c.visible, c.output_is)
  run_counting plaintext hide_at s (tick now ∷ es) c = elim (Bool-cases (leb hide_at now)) [
    | inl late ↦
        let over = tick_late plaintext hide_at s c now late in
        rw late (hidden_for_good plaintext _ es over)
    | inr early ↦ rw early (
        run_counting plaintext hide_at (step to_locale_string auto_hide_seconds s (tick now)) es
          (tick_early plaintext hide_at s c now early))
  ]
  run_counting plaintext hide_at s (keep ∷ es) c =
      kept_for_good plaintext _ es (keep_now plaintext hide_at s c)
  run_counting plaintext hide_at s (copied clipboard ∷ es) c =
      run_counting plaintext hide_at (step to_locale_string auto_hide_seconds s (copied clipboard))
        es (IsAlike-IsCounting plaintext hide_at s _ (copied-IsAlike s clipboard) c)
  run_counting plaintext hide_at s (copy_timer ∷ es) c =
      run_counting plaintext hide_at (step to_locale_string auto_hide_seconds s copy_timer) es
        (IsAlike-IsCounting plaintext hide_at s _ (copy_timer-IsAlike s) c)

  -- After the plaintext is revealed it is hidden and removed exactly when a tick comes at or after the
  -- time limit with no "Keep visible" before it, and else it is on show unchanged, copied or not.
  pub run-reveal :
      (now : ℕ) (plaintext : Text) (status : Status) (es : List Event)
      → let s =
          run to_locale_string auto_hide_seconds
            (reveal to_locale_string auto_hide_seconds now plaintext status)
            es in
        let gone = expires (now + auto_hide_seconds * 1000) es in
        (s.hidden ≡ gone) × (s.output ≡ (if gone then [] else plaintext))
  run-reveal now plaintext status es =
      run_counting plaintext (now + auto_hide_seconds * 1000) _ es (
        unfold reveal in
        record {
          output_is = refl;
          visible = refl;
          keepable = refl;
          ticking = refl;
          ends_at = refl;
        })
