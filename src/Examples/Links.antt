-- ===== src/Examples/Links.antt =====
-- Examples of static/link.js and static/ui.js: links, durations and the copy button.
use key_bank.Base.{◌≡◌, ◌≢◌, ◌↔◌, refl, [], ◌∷◌, Text, codes, ok, ◌>>=◌, All, true, false}
use key_bank.Js.Number.{decimal}
use key_bank.Js.Url
use key_bank.Js.Url.{is_unreserved}
use key_bank.Js.Url.Component.{IsUnreserved}
use key_bank.Crypto.Codec.{base64_url_pattern}
use key_bank.Crypto.Message.{Encrypted, decrypt_message}
use key_bank.Link.{build_share_url, parse_fragment, raw_fragment, fragment_of}
use key_bank.Link.Fragment.{IsWellFormed}
use key_bank.Link.RoundTrip.{
  hash_of, IsNoHash, Accepts, parse_fragment-build_share_url, parse_fragment_iff,
}
use key_bank.Link.Malformed.{parse_fragment_accepts_left_over}
use key_bank.Ui.{CopyButton, writes, copy_text, timeout, format_duration}
use key_bank.Ui.Duration.{Formatted, format_duration-Formatted}
use key_bank.Ui.Copy.{IsQuiet, timeout-copy_text, copy_twice_keeps_confirmation}
use key_bank.Examples.Browser.{browser}
use key_bank.Examples.Checks.{All_of_test, without}

-- Its ciphertext has five characters.
abbrev short_note : Encrypted
short_note = record { wrapped = codes "AQ-_"; iv = codes "AA"; ct = codes "abcde" }

short_note-IsWellFormed : IsWellFormed short_note
unfolding codes base64_url_pattern
short_note-IsWellFormed = record { wrapped_ok = refl; iv_ok = refl; ct_ok = refl }

abbrev bank : Text
bank = codes "https://bank"

abbrev key_id : Text
key_id = codes "0a1b"

unreserved : All IsUnreserved key_id
unfolding codes
unreserved = All_of_test IsUnreserved is_unreserved (λ c h. h) key_id refl

no_hash : All IsNoHash bank
unfolding codes
no_hash = without b'#' bank refl

parse_fragment-build_share_url_example :
    (build_share_url bank key_id short_note >>= λ url. parse_fragment (hash_of url)) ≡ ok short_note
parse_fragment-build_share_url_example =
    parse_fragment-build_share_url bank key_id short_note no_hash unreserved short_note-IsWellFormed

parse_fragment_iff_example :
    (parse_fragment (codes "#v=1&w=AQ&i=AA&c=BB") ≡ ok short_note)
    ↔ Accepts (Url.parse (raw_fragment (codes "#v=1&w=AQ&i=AA&c=BB"))) short_note
parse_fragment_iff_example = parse_fragment_iff (codes "#v=1&w=AQ&i=AA&c=BB") short_note

parse_fragment_accepts_left_over_example :
    (parse_fragment (b'#' ∷ fragment_of short_note) ≡ ok short_note)
    × ((priv_pem plaintext : Text)
        → decrypt_message browser priv_pem short_note.wrapped short_note.iv short_note.ct
          ≢ ok plaintext)
parse_fragment_accepts_left_over_example =
    parse_fragment_accepts_left_over browser short_note short_note-IsWellFormed
      (unfold codes in refl)

format_duration-Formatted_example : Formatted decimal 7200 (format_duration decimal 7200)
format_duration-Formatted_example = format_duration-Formatted decimal 7200

abbrev copy_button : CopyButton
copy_button = record { label = codes "Copy link"; copied = false; timers = [] }

copy_button-IsQuiet : IsQuiet copy_button
copy_button-IsQuiet = record { unmarked = refl; no_timers = refl }

timeout-copy_text_example :
    ((copy_text copy_button writes).button.label ≡ codes "Copied")
    × ((copy_text copy_button writes).button.copied ≡ true)
    × (timeout (copy_text copy_button writes).button ≡ copy_button)
timeout-copy_text_example = timeout-copy_text copy_button copy_button-IsQuiet

copy_twice_keeps_confirmation_example :
    timeout (timeout (copy_text (copy_text copy_button writes).button writes).button)
    ≡ record { label = codes "Copied"; copied = false; timers = [] }
copy_twice_keeps_confirmation_example =
    copy_twice_keeps_confirmation copy_button copy_button-IsQuiet
