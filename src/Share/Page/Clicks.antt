-- ===== src/Share/Page/Clicks.antt =====
-- New addresses and clicks keep the invariant of the share page, and so do requests that fail.
use key_bank.Base.{
  ◌≡◌, refl, Bool, true, false, [], ◌∷◌, Option, none, some, Text, Error, if◌then◌else◌, subst,
  Result, ok, err,
}
use key_bank.Crypto.Message.{Encrypted}
use key_bank.Link.{parse_fragment}
use key_bank.Link.Fragment.{IsWellFormed}
use key_bank.Ui.{Anatomy, render_anatomy, set_status, working}
use key_bank.Api.{Net, Settle, start_fetch_key}
use key_bank.Api.Faithful.{IsFaithful}
use key_bank.Share.Page.{
  Env, CardState, ready, busy, open_note, spent, invalid, Location, nothing, Page, set_state,
  fetching_text, show_parts, inspect_with, inspect_link, on_hash_change, key_failed, key_requested,
  fetch_with, on_click,
}
use key_bank.Share.Page.Invariant.{
  IsRead, Phase, Inv, StartsFaithful, start_fetch_key-StartsFaithful, parse_fragment-IsWellFormed,
  FragmentOk-IsRead, enabled-ready, ready_Phase,
}

module _ (env : Env) where
  pub show_parts-Inv :
      (p : Page) (r : Result Encrypted)
      → p.wait ≡ nothing
      → p.shown ≡ none
      → IsFaithful p.net
      → ((f : Encrypted) → r ≡ ok f → IsWellFormed f)
      → Inv (show_parts env p r)
  unfolding show_parts
  show_parts-Inv p (ok f) w s n good = record {
    button = refl;
    fragment_ok = good f refl;
    phase = (w, s);
    faithful = n;
  }
  show_parts-Inv p (err e) w s n good = record {
    button = refl;
    fragment_ok = refl;
    phase = (w, s);
    faithful = n;
  }

  inspect_link-Inv :
      (p : Page) → Inv p → p.wait ≡ nothing → p.shown ≡ none → Inv (inspect_link env p)
  inspect_link-Inv p h w s =
      unfold inspect_link in go (render_anatomy env.parse_url env.to_locale_string p.location.href)
    where
      go : (r : Result Anatomy) → Inv (inspect_with env p r)
      go (err e) = unfold inspect_with in h
      go (ok a) =
          unfold inspect_with in
          show_parts-Inv (record p { anatomy = a }) (parse_fragment p.location.hash) w s h.faithful
            (parse_fragment-IsWellFormed p.location.hash)

  pub key_failed-Inv :
      (p : Page) (e : Error)
      → p.shown ≡ none
      → IsRead p.fragment
      → IsFaithful p.net
      → Inv (key_failed env p e)
  unfolding key_failed
  key_failed-Inv p e s f n = record {
    button = refl;
    fragment_ok = f;
    phase = (refl, s);
    faithful = n;
  }

  key_requested-Inv :
      (p : Page) (r : Result (Net × Settle))
      → p.state ≡ busy
      → p.disabled ≡ true
      → p.shown ≡ none
      → IsRead p.fragment
      → IsFaithful p.net
      → StartsFaithful r
      → Inv (key_requested env p r)
  unfolding key_requested
  key_requested-Inv p (err e) b d s f n h = key_failed-Inv p e s f n
  key_requested-Inv p (ok (net, handle)) b d s f n h = record {
    button = rw b d;
    fragment_ok = rw b f;
    phase = rw b (tt, s);
    faithful = h;
  }

  fetch_with-Inv :
      (p : Page) (fragment : Option Encrypted) (id : Text)
      → p.fragment ≡ fragment
      → Inv p
      → p.shown ≡ none
      → Inv (fetch_with env p fragment id)
  unfolding fetch_with
  fetch_with-Inv p none id e h s = h
  fetch_with-Inv p (some f) [] e h s = h
  fetch_with-Inv p (some f) (d ∷ id) e h s =
      key_requested-Inv (record (set_state busy p) { status = set_status fetching_text working })
        (start_fetch_key p.net (d ∷ id)) refl refl s
        (FragmentOk-IsRead p.state p.fragment f e h.fragment_ok) h.faithful
        (start_fetch_key-StartsFaithful p.net (d ∷ id) h.faithful)

  pub on_click-Inv : (p : Page) → Inv p → Inv (on_click env p)
  unfolding on_click
  on_click-Inv p h = go p.disabled refl
    where
      go :
          (b : Bool)
          → p.disabled ≡ b
          → Inv (if b then p else fetch_with env p p.fragment env.share_id)
      go true off = h
      go false on =
          fetch_with-Inv p p.fragment env.share_id refl h (ready_Phase p h (enabled-ready p h on)).1

  pub on_hash_change-Inv :
      (p : Page) (location : Location)
      → Inv p
      → Inv (on_hash_change env p.state (record p { location = location }))
  on_hash_change-Inv p location h = go p.state refl
    where
      moved : Inv (record p { location = location })
      moved = record {
        button = h.button;
        fragment_ok = h.fragment_ok;
        phase = h.phase;
        faithful = h.faithful;
      }

      go :
          (s : CardState)
          → p.state ≡ s
          → Inv (on_hash_change env s (record p { location = location }))
      go ready e =
          let (w, s) = subst (λ s. Phase s p.wait p.shown) e h.phase in
          unfold on_hash_change in inspect_link-Inv (record p { location = location }) moved w s
      go invalid e =
          let (w, s) = subst (λ s. Phase s p.wait p.shown) e h.phase in
          unfold on_hash_change in inspect_link-Inv (record p { location = location }) moved w s
      go busy e = unfold on_hash_change in moved
      go open_note e = unfold on_hash_change in moved
      go spent e = unfold on_hash_change in moved
