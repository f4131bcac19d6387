-- ===== src/Share/Page/Invariant.antt =====
-- What holds of the share page between two events.
use key_bank.Base.{
  ◌≡◌, ◌∙◌, ◌≢◌, refl, sym, ap, true, false, not, Option, none, some, Text, subst, Result, ok, err,
  ◌>>=◌, codes, ◌++◌,
}
use key_bank.Js.Url.{encode_uri_component}
use key_bank.Crypto.Message.{Encrypted}
use key_bank.Link.{parse_fragment}
use key_bank.Link.Fragment.{IsWellFormed}
use key_bank.Link.RoundTrip.{parse_fragment_iff}
use key_bank.Api.{
  Net, Settle, Response, start_send, start_fetch_key, finish_fetch_key, describe_fetch,
}
use key_bank.Api.Faithful.{IsFaithful, start_send-IsFaithful, finish_send-IsFaithful}
use key_bank.Share.Reveal.{Shown}
use key_bank.Share.Page.{
  CardState, ready, busy, open_note, spent, invalid, Wait, nothing, for_key, for_plaintext, Page,
  is_ready,
}

abbrev pub IsRead : Option Encrypted → Type 0
IsRead none = ⊥
IsRead (some f) = IsWellFormed f

-- The page holds a well-formed fragment unless the link is invalid.
abbrev pub FragmentOk : CardState → Option Encrypted → Type 0
FragmentOk invalid fragment = fragment ≡ none
FragmentOk _ fragment = IsRead fragment

abbrev pub Waits : Wait → Type 0
Waits nothing = ⊥
Waits (for_key handle) = Unit
Waits (for_plaintext pem f) = IsWellFormed f

abbrev pub IsThere : Option Shown → Type 0
IsThere none = ⊥
IsThere (some s) = Unit

-- An answer is awaited exactly while the page is working, and a note is on show only on an open page.
abbrev pub Phase : CardState → Wait → Option Shown → Type 0
Phase busy wait shown = Waits wait × (shown ≡ none)
Phase open_note wait shown = (wait ≡ nothing) × IsThere shown
Phase _ wait shown = (wait ≡ nothing) × (shown ≡ none)

pub record Inv (p : Page) : Type 0 where
  pub button : p.disabled ≡ not (is_ready p.state)
  pub fragment_ok : FragmentOk p.state p.fragment
  pub phase : Phase p.state p.wait p.shown
  pub faithful : IsFaithful p.net

pub finish_fetch_key-IsFaithful :
    (net : Net) (handle : Settle) (response : Option Response)
    → IsFaithful net
    → IsFaithful (finish_fetch_key net handle response).0
unfolding finish_fetch_key
finish_fetch_key-IsFaithful net handle response h =
    finish_send-IsFaithful net handle describe_fetch response h

-- A request that is started leaves a faithful ledger.
abbrev pub StartsFaithful : Result (Net × Settle) → Type 0
StartsFaithful (ok (net, handle)) = IsFaithful net
StartsFaithful (err e) = Unit

pub start_fetch_key-StartsFaithful :
    (net : Net) (id : Text) → IsFaithful net → StartsFaithful (start_fetch_key net id)
unfolding start_fetch_key
start_fetch_key-StartsFaithful net id h = go (encode_uri_component id)
  where
    go :
        (r : Result Text)
        → StartsFaithful (
            r >>= λ id_text. ok (start_send net (codes "GET") (codes "/api/keys/" ++ id_text) none))
    go (ok t) = start_send-IsFaithful net _ _ none h
    go (err e) = tt

pub parse_fragment-IsWellFormed :
    (hash : Text) (f : Encrypted) → parse_fragment hash ≡ ok f → IsWellFormed f
parse_fragment-IsWellFormed hash f h = ((parse_fragment_iff hash f).0 h).well_formed

pub FragmentOk-IsRead :
    (state : CardState) (fragment : Option Encrypted) (f : Encrypted)
    → fragment ≡ some f
    → FragmentOk state fragment
    → IsRead fragment
FragmentOk-IsRead invalid fragment f e h = absurd (none_or_some (sym h ∙ e))
  where
    none_or_some : none ≡ some f → ⊥
    none_or_some q = cc
FragmentOk-IsRead ready fragment f e h = h
FragmentOk-IsRead busy fragment f e h = h
FragmentOk-IsRead open_note fragment f e h = h
FragmentOk-IsRead spent fragment f e h = h

-- The button is enabled on a ready page only.
pub enabled-ready : (p : Page) → Inv p → p.disabled ≡ false → p.state ≡ ready
enabled-ready p h e = go p.state (sym e ∙ h.button)
  where
    go : (s : CardState) → false ≡ not (is_ready s) → s ≡ ready
    go ready q = refl
    go _ q = cc

pub ready_Phase : (p : Page) → Inv p → p.state ≡ ready → (p.wait ≡ nothing) × (p.shown ≡ none)
ready_Phase p h e = subst (λ s. Phase s p.wait p.shown) e h.phase

busy_of_wait :
    (state : CardState) (wait : Wait) (shown : Option Shown)
    → Phase state wait shown
    → wait ≢ nothing
    → state ≡ busy
busy_of_wait busy wait shown h ne = refl
busy_of_wait ready wait shown h ne = absurd (ne h.0)
busy_of_wait open_note wait shown h ne = absurd (ne h.0)
busy_of_wait spent wait shown h ne = absurd (ne h.0)
busy_of_wait invalid wait shown h ne = absurd (ne h.0)

-- The page is working: the request is under way.
pub record IsBusy (p : Page) : Type 0 where
  pub state_is : p.state ≡ busy
  pub disabled_is : p.disabled ≡ true
  pub none_shown : p.shown ≡ none
  pub read : IsRead p.fragment
  pub shows : IsFaithful p.net

pub Inv-IsBusy : (p : Page) → Inv p → p.wait ≢ nothing → IsBusy p
Inv-IsBusy p h ne =
    let b = busy_of_wait p.state p.wait p.shown h.phase ne in
    record {
      state_is = b;
      disabled_is = h.button ∙ ap (λ s. not (is_ready s)) b;
      none_shown = (subst (λ s. Phase s p.wait p.shown) b h.phase).1;
      read = subst (λ s. FragmentOk s p.fragment) b h.fragment_ok;
      shows = h.faithful;
    }
