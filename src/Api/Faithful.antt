-- ===== src/Api/Faithful.antt =====
-- The ledger lists the requests of the page as they were sent, in their order.
use key_bank.Base.{
  ℕ, zero, suc, ◌≡◌, ◌∙◌, refl, true, false, List, [], ◌∷◌, ◌++◌, Option, none, some, Text,
}
use key_bank.Api.{
  Entry, Ledger, Request, Net, Response, Settle, new_entry, set_received, settle, start_send,
  finish_send, default_note,
}

-- The entry shows the request: its method and its path, and its body verbatim if it has one.
abbrev pub ShowsBody : Entry → Option Text → Type 0
ShowsBody e none = e.literal ≡ false
ShowsBody e (some body) = (e.literal ≡ true) × (e.sent ≡ body)

pub record Shows (e : Entry) (r : Request) : Type 0 where
  pub same_method : e.method ≡ r.method
  pub same_path : e.path ≡ r.path
  pub shows_body : ShowsBody e r.body

abbrev pub AllShow : List Entry → List Request → Type 0
AllShow [] [] = Unit
AllShow (e ∷ es) (r ∷ rs) = Shows e r × AllShow es rs
AllShow [] (r ∷ rs) = ⊥
AllShow (e ∷ es) [] = ⊥

-- The page has a ledger, and it shows every request.
pub record IsFaithful (net : Net) : Type 0 where
  pub shown : net.ledger.shown ≡ true
  pub all_show : AllShow net.ledger.entries net.requests

AllShow-snoc :
    (es : List Entry) (rs : List Request) (e : Entry) (r : Request)
    → AllShow es rs
    → Shows e r
    → AllShow (es ++ e ∷ []) (rs ++ r ∷ [])
AllShow-snoc [] [] e r h s = (s, tt)
AllShow-snoc [] (q ∷ rs) e r h s = absurd h
AllShow-snoc (d ∷ es) [] e r h s = absurd h
AllShow-snoc (d ∷ es) (q ∷ rs) e r (hd, h) s = (hd, AllShow-snoc es rs e r h s)

Shows-received :
    (e : Entry) (r : Request) (reply : Text) → Shows e r → Shows (record e { received = reply }) r
Shows-received e r reply s = record {
  same_method = s.same_method;
  same_path = s.same_path;
  shows_body = body e r.body reply s.shows_body;
}
  where
    body :
        (e : Entry) (b : Option Text) (reply : Text)
        → ShowsBody e b
        → ShowsBody (record e { received = reply }) b
    body e none reply h = h
    body e (some b) reply h = h

AllShow-set_received :
    (es : List Entry) (rs : List Request) (i : ℕ) (reply : Text)
    → AllShow es rs
    → AllShow (set_received es i reply) rs
unfolding set_received
AllShow-set_received [] [] i reply h = h
AllShow-set_received [] (r ∷ rs) i reply h = absurd h
AllShow-set_received (e ∷ es) [] i reply h = absurd h
AllShow-set_received (e ∷ es) (r ∷ rs) zero reply (he, h) = (Shows-received e r reply he, h)
AllShow-set_received (e ∷ es) (r ∷ rs) (suc i) reply (he, h) =
    (he, AllShow-set_received es rs i reply h)

new_entry-Shows :
    (method path note : Text) (body : Option Text)
    → Shows (new_entry method path body note) (record { method = method; path = path; body = body })
new_entry-Shows method path note none = record {
  same_method = refl;
  same_path = refl;
  shows_body = refl;
}
new_entry-Shows method path note (some b) = record {
  same_method = refl;
  same_path = refl;
  shows_body = (refl, refl);
}

-- If the ledger shows every request, in order and with its method, path and body, it does so when one
-- more has been sent.
pub start_send-IsFaithful :
    (net : Net) (method path : Text) (body : Option Text)
    → IsFaithful net
    → IsFaithful (start_send net method path body).0
unfolding start_send
start_send-IsFaithful net method path body h = rw h.shown (record {
  shown = refl;
  all_show = AllShow-snoc _ _ _ _ h.all_show (new_entry-Shows method path default_note body);
})

settle-AllShow :
    (ledger : Ledger) (rs : List Request) (handle : Settle) (reply : Text)
    → AllShow ledger.entries rs
    → AllShow (settle ledger handle reply).entries rs
unfolding settle
settle-AllShow ledger rs none reply h = h
settle-AllShow ledger rs (some i) reply h = AllShow-set_received ledger.entries rs i reply h

settle-shown :
    (ledger : Ledger) (handle : Settle) (reply : Text)
    → (settle ledger handle reply).shown ≡ ledger.shown
unfolding settle
settle-shown ledger none reply = refl
settle-shown ledger (some i) reply = refl

-- If the ledger shows every request as it was sent, it does so when a reply, or the failure of the
-- request, has been filled in.
pub finish_send-IsFaithful :
    (net : Net) (handle : Settle) (describe : ℕ → Text) (reply : Option Response)
    → IsFaithful net
    → IsFaithful (finish_send net handle describe reply).0
unfolding finish_send
finish_send-IsFaithful net handle describe none h = record {
  shown = settle-shown net.ledger handle _ ∙ h.shown;
  all_show = settle-AllShow net.ledger net.requests handle _ h.all_show;
}
finish_send-IsFaithful net handle describe (some response) h = record {
  shown = settle-shown net.ledger handle _ ∙ h.shown;
  all_show = settle-AllShow net.ledger net.requests handle _ h.all_show;
}
