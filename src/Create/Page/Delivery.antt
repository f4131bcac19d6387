-- ===== src/Create/Page/Delivery.antt =====
-- The link that the create page hands out is one that the recipient can open.
use key_bank.Base.{ℕ, ◌≡◌, refl, sym, subst, false, List, Text, Result, ok, err, ◌>>=◌, All}
use key_bank.Js.Utf8.{text_of, strip_mark}
use key_bank.Js.Utf8.RoundTrip.{IsScalar}
use key_bank.Js.Url.Component.{IsUnreserved}
use key_bank.Crypto.Web.{IsLawful}
use key_bank.Crypto.Message.{import_rsa_private_key, encrypt_message, decrypt_message}
use key_bank.Crypto.Message.RoundTrip.{Encryption}
use key_bank.Link.{build_share_url, parse_fragment}
use key_bank.Link.RoundTrip.{hash_of, IsNoHash}
use key_bank.Note.{decrypt_message-build_share_url}
use key_bank.Ui.{Anatomy, render_anatomy}
use key_bank.Api.{Key}
use key_bank.Create.Page.{
  nothing, for_link, Page, encrypted, Env, show_result, link_made, on_encrypted, step, expiry_text,
}

-- The page shows this link, and the next note can be submitted.
pub record Hands (q : Page) (url : Text) : Type 0 where
  pub url_is : q.share_url ≡ url
  pub enabled : q.submit_disabled ≡ false
  pub done : q.wait ≡ nothing

module _ (env : Env) where
  link_made-Hands : (p : Page) (ttl : ℕ) (url : Text) → Hands (link_made env p ttl (ok url)) url
  link_made-Hands p ttl url =
      unfold link_made in go (render_anatomy env.parse_url env.to_locale_string url)
    where
      go :
          (r : Result Anatomy)
          → Hands
              (show_result env
                (record p { share_url = url; result_expiry = expiry_text env ttl })
                url
                r)
              url
      go (err e) = record { url_is = refl; enabled = refl; done = refl }
      go (ok a) = record { url_is = refl; enabled = refl; done = refl }

  step-Hands :
      (p : Page) (key : Key) (ttl : ℕ) (plaintext url : Text) (random : env.crypto.Random)
      → p.wait ≡ for_link key ttl plaintext
      → (encrypt_message env.crypto random key.pub_pem plaintext
          >>= build_share_url env.origin key.id)
        ≡ ok url
      → Hands (step env p (encrypted random)) url
  unfolding step on_encrypted
  step-Hands p key ttl plaintext url random w built =
      subst (λ w. Hands (on_encrypted env p w random) url) (sym w)
        (subst (λ r. Hands (link_made env p ttl r) url) (sym built) (link_made-Hands p ttl url))

  -- Let the page wait for the encryption of a note of scalar values, the calls of a lawful Web Crypto API
  -- succeed, the origin hold no `#`, the ID hold only unreserved characters, and the private key be the
  -- other half of the pair. Then, when the encryption has ended, the link on the page, opened and
  -- decrypted, gives the note back without a leading byte order mark, and the form can be submitted
  -- again.
  pub step-delivers :
      (IsPair : env.crypto.PublicKey → env.crypto.PrivateKey → Type 0)
      (laws : IsLawful env.crypto IsPair) (p : Page) (key : Key) (ttl : ℕ) (cs : List ℕ)
      (priv_pem : Text) (random : env.crypto.Random)
      (e : Encryption env.crypto random key.pub_pem (text_of cs))
      (private_key : env.crypto.PrivateKey)
      → p.wait ≡ for_link key ttl (text_of cs)
      → All IsScalar cs
      → All IsNoHash env.origin
      → All IsUnreserved key.id
      → import_rsa_private_key env.crypto priv_pem ≡ ok private_key
      → IsPair e.public_key private_key
      → let q = step env p (encrypted random) in
        ((parse_fragment (hash_of q.share_url) >>= λ f.
        decrypt_message env.crypto priv_pem f.wrapped f.iv f.ct)
          ≡ ok (text_of (strip_mark cs)))
        × (q.submit_disabled ≡ false)
        × (q.wait ≡ nothing)
  step-delivers IsPair laws p key ttl cs priv_pem random e private_key w hs ho hi hk pair =
      let (url, built, read) =
        decrypt_message-build_share_url env.crypto IsPair laws random key.pub_pem priv_pem
          env.origin key.id cs e private_key hs ho hi hk pair in
      let h = step-Hands p key ttl (text_of cs) url random w built in
      (
        subst
            (λ u.
              (parse_fragment (hash_of u) >>= λ f.
              decrypt_message env.crypto priv_pem f.wrapped f.iv f.ct)
              ≡ ok (text_of (strip_mark cs)))
            (sym h.url_is) read,
        h.enabled,
        h.done,
      )
