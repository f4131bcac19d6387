-- ===== src/Server/Routes/Headers.antt =====
-- Every answer of the dynamic routes has the security headers.
use key_bank.Base.{ℕ, ◌≡◌, ◌∙◌, refl, false, [], Option, none, some, Text, codes, Bytes}
use key_bank.Js.Url.{text_eq}
use key_bank.Js.Url.Equality.{text_eq_refl}
use key_bank.Server.Table.{Table, find, put, erase, find-put, find-erase}
use key_bank.Server.Http.{
  Sent, Writer, sent_now, set_header, delete_header, write_header, write, http_error, Outcome,
  finished, panicked,
}
use key_bank.Server.Middleware.{security_policy}

-- The headers that keep an answer out of caches, frames and foreign scripts.
pub record HasHeaders (headers : Table Text) : Type 0 where
  pub transport :
      find (codes "Strict-Transport-Security") headers
      ≡ some (codes "max-age=15552000; includeSubDomains")
  pub policy : find (codes "Content-Security-Policy") headers ≡ some security_policy
  pub referrer : find (codes "Referrer-Policy") headers ≡ some (codes "no-referrer")
  pub cache : find (codes "Cache-Control") headers ≡ some (codes "no-store")
  pub frame : find (codes "X-Frame-Options") headers ≡ some (codes "DENY")
  pub sniff : find (codes "X-Content-Type-Options") headers ≡ some (codes "nosniff")

abbrev pub SentHas : Option Sent → Type 0
SentHas none = Unit
SentHas (some sent) = HasHeaders sent.headers

-- So far and, once they are written, for good.
pub record IsGuarded (w : Writer) : Type 0 where
  pub now : HasHeaders w.headers
  pub then_on : SentHas w.sent

abbrev pub EndsGuarded : {S : Type 0} → Outcome S → Type 0
EndsGuarded (finished s w) = IsGuarded w
EndsGuarded (panicked s w) = IsGuarded w

module _ (k j x v : Text) (headers : Table Text) where
  find-put_other : text_eq k j ≡ false → find j headers ≡ some x → find j (put k v headers) ≡ some x
  find-put_other ne h = find-put k j v headers ∙ rw ne h

  find-erase_other :
      text_eq k j ≡ false → find j headers ≡ some x → find j (erase k headers) ≡ some x
  find-erase_other ne h = find-erase k j headers ∙ rw ne h

-- The name is none of the six.
record IsOther (k : Text) : Type 0 where
  transport : text_eq k (codes "Strict-Transport-Security") ≡ false
  policy : text_eq k (codes "Content-Security-Policy") ≡ false
  referrer : text_eq k (codes "Referrer-Policy") ≡ false
  cache : text_eq k (codes "Cache-Control") ≡ false
  frame : text_eq k (codes "X-Frame-Options") ≡ false
  sniff : text_eq k (codes "X-Content-Type-Options") ≡ false

put_other-HasHeaders :
    (k v : Text) (headers : Table Text)
    → IsOther k
    → HasHeaders headers
    → HasHeaders (put k v headers)
put_other-HasHeaders k v headers o h = record {
  transport = find-put_other k _ _ v headers o.transport h.transport;
  policy = find-put_other k _ _ v headers o.policy h.policy;
  referrer = find-put_other k _ _ v headers o.referrer h.referrer;
  cache = find-put_other k _ _ v headers o.cache h.cache;
  frame = find-put_other k _ _ v headers o.frame h.frame;
  sniff = find-put_other k _ _ v headers o.sniff h.sniff;
}

erase_other-HasHeaders :
    (k : Text) (headers : Table Text)
    → IsOther k
    → HasHeaders headers
    → HasHeaders (erase k headers)
erase_other-HasHeaders k headers o h = record {
  transport = find-erase_other k _ _ [] headers o.transport h.transport;
  policy = find-erase_other k _ _ [] headers o.policy h.policy;
  referrer = find-erase_other k _ _ [] headers o.referrer h.referrer;
  cache = find-erase_other k _ _ [] headers o.cache h.cache;
  frame = find-erase_other k _ _ [] headers o.frame h.frame;
  sniff = find-erase_other k _ _ [] headers o.sniff h.sniff;
}

content_type-IsOther : IsOther (codes "Content-Type")
unfolding codes text_eq
content_type-IsOther = record {
  transport = refl;
  policy = refl;
  referrer = refl;
  cache = refl;
  frame = refl;
  sniff = refl;
}

content_length-IsOther : IsOther (codes "Content-Length")
unfolding codes text_eq
content_length-IsOther = record {
  transport = refl;
  policy = refl;
  referrer = refl;
  cache = refl;
  frame = refl;
  sniff = refl;
}

put_sniff-HasHeaders :
    (headers : Table Text)
    → HasHeaders headers
    → HasHeaders (put (codes "X-Content-Type-Options") (codes "nosniff") headers)
put_sniff-HasHeaders headers h = record {
  transport = find-put_other _ _ _ _ headers (unfold codes text_eq in refl) h.transport;
  policy = find-put_other _ _ _ _ headers (unfold codes text_eq in refl) h.policy;
  referrer = find-put_other _ _ _ _ headers (unfold codes text_eq in refl) h.referrer;
  cache = find-put_other _ _ _ _ headers (unfold codes text_eq in refl) h.cache;
  frame = find-put_other _ _ _ _ headers (unfold codes text_eq in refl) h.frame;
  sniff =
      find-put (codes "X-Content-Type-Options") _ _ headers
      ∙ rw (text_eq_refl (codes "X-Content-Type-Options")) refl;
}

pub content_type-IsGuarded :
    (value : Text) (w : Writer)
    → IsGuarded w
    → IsGuarded (set_header (codes "Content-Type") value w)
unfolding set_header
content_type-IsGuarded value w g = record {
  now = put_other-HasHeaders (codes "Content-Type") value w.headers content_type-IsOther g.now;
  then_on = g.then_on;
}

sniff-IsGuarded :
    (w : Writer)
    → IsGuarded w
    → IsGuarded (set_header (codes "X-Content-Type-Options") (codes "nosniff") w)
unfolding set_header
sniff-IsGuarded w g = record { now = put_sniff-HasHeaders w.headers g.now; then_on = g.then_on }

content_length-IsGuarded :
    (w : Writer) → IsGuarded w → IsGuarded (delete_header (codes "Content-Length") w)
unfolding delete_header
content_length-IsGuarded w g = record {
  now = erase_other-HasHeaders (codes "Content-Length") w.headers content_length-IsOther g.now;
  then_on = g.then_on;
}

pub write_header-IsGuarded :
    (status : ℕ) (w : Writer) → IsGuarded w → IsGuarded (write_header status w)
unfolding write_header
write_header-IsGuarded status w g = record { now = g.now; then_on = go w.sent g.then_on }
  where
    go : (o : Option Sent) → SentHas o → HasHeaders (sent_now o status w.headers).headers
    go none h = g.now
    go (some sent) h = h

pub write-IsGuarded : (bytes : Bytes) (w : Writer) → IsGuarded w → IsGuarded (write bytes w)
unfolding write
write-IsGuarded bytes w g =
    let g' = write_header-IsGuarded 200 w g in record { now = g'.now; then_on = g'.then_on }

pub http_error-IsGuarded :
    (message : Text) (status : ℕ) (w : Writer)
    → IsGuarded w
    → IsGuarded (http_error message status w)
http_error-IsGuarded message status w g =
    unfold http_error in
    write-IsGuarded _ _ (
      write_header-IsGuarded status _ (
        sniff-IsGuarded _ (
          content_type-IsGuarded (codes "text/plain; charset=utf-8") _
            (content_length-IsGuarded w g))))
