-- ===== src/Examples/Replies.antt =====
-- Examples of static/api.js and of `reveal` in static/share.js.
use key_bank.Base.{
  ℕ, ◌+◌, ◌-◌, ◌*◌, ◌≡◌, ◌≤◌, ◌<◌, ◌↔◌, refl, true, List, [], ◌∷◌, Option, none, some, Text, codes,
  Result, ok, if◌then◌else◌,
}
use key_bank.Js.Number.{decimal}
use key_bank.Ui.{Status, set_status, idle, writes}
use key_bank.Api.{Net, Response, Key, create_body, start_send, finish_fetch_key, finish_create_key}
use key_bank.Api.Faithful.{IsFaithful, start_send-IsFaithful}
use key_bank.Api.Outcome.{finish_fetch_key_iff, finish_create_key-eq-ok_iff}
use key_bank.Share.Reveal
use key_bank.Share.Reveal.{Shown, tick, keep, copied, copy_timer}
use key_bank.Share.Reveal.Visibility.{expires, run-reveal}
use key_bank.Share.Reveal.Countdown.{tick_shows}

abbrev quiet : Net
quiet = record { ledger = record { shown = true; entries = [] }; requests = [] }

quiet-IsFaithful : IsFaithful quiet
quiet-IsFaithful = record { shown = refl; all_show = tt }

start_send-IsFaithful_example :
    IsFaithful (start_send quiet (codes "POST") (codes "/api/keys") (some (create_body 3600))).0
start_send-IsFaithful_example =
    start_send-IsFaithful quiet (codes "POST") (codes "/api/keys") (some (create_body 3600))
      quiet-IsFaithful

abbrev answer : ℕ → Option Response
answer status = some (record { status = status; text = ok (codes "key") })

finish_fetch_key_iff_example :
    (((finish_fetch_key quiet (some 0) (answer 200)).1 ≡ ok (some (codes "key"))) ↔ (
      (response : Response) × (answer 200 ≡ some response)
      × (200 ≤ response.status)
      × (response.status ≤ 299)
      × (response.text ≡ ok (codes "key"))))
    × (((finish_fetch_key quiet (some 0) (answer 200)).1 ≡ ok none)
        ↔ ((response : Response) × (answer 200 ≡ some response) × (response.status ≡ 404)))
finish_fetch_key_iff_example = finish_fetch_key_iff quiet (some 0) (answer 200) (codes "key")

abbrev new_key : Key
new_key = record { id = codes "0a1b"; pub_pem = codes "key" }

abbrev json : Text → Result Key
json text = ok (record { id = codes "0a1b"; pub_pem = text })

finish_create_key-eq-ok_iff_example :
    ((finish_create_key json quiet (some 0) (answer 201)).1 ≡ ok new_key) ↔ (
      (response : Response) × (answer 201 ≡ some response)
      × (200 ≤ response.status)
      × (response.status ≤ 299)
      × (text : Text) × (response.text ≡ ok text)
      × (json text ≡ ok new_key))
finish_create_key-eq-ok_iff_example =
    finish_create_key-eq-ok_iff json quiet (some 0) (answer 201) new_key

abbrev line : Status
line = set_status (codes "Ready.") idle

abbrev ticks : List Reveal.Event
ticks = tick 1250 ∷ copied writes ∷ keep ∷ copy_timer ∷ tick 99000 ∷ []

run-reveal_example :
    let s = Reveal.run decimal 60 (Reveal.reveal decimal 60 1000 (codes "note") line) ticks in
    let gone = expires (1000 + 60 * 1000) ticks in
    (s.hidden ≡ gone) × (s.output ≡ (if gone then [] else codes "note"))
run-reveal_example = run-reveal decimal 60 1000 (codes "note") line ticks

abbrev opened : Shown
opened = Reveal.reveal decimal 60 1000 (codes "note") line

running : opened.timer ≡ true
unfolding Reveal.reveal
running = refl

tick_shows_example :
    (left : ℕ) × ((Reveal.step decimal 60 opened (tick 1250)).countdown ≡ decimal left)
    × (opened.hide_at - 1250 ≤ left * 1000)
    × (left * 1000 < opened.hide_at - 1250 + 1000)
tick_shows_example = tick_shows decimal 60 opened 1250 running
