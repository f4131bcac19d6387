-- ===== src/Server/Http.antt =====
-- net/http, as the handlers use it: a request, the response that is being written, and `http.Error`.
use key_bank.Base.{◌≡◌, ℕ, List, [], ◌∷◌, ◌++◌, Option, none, some, Text, Bytes, codes}
use key_bank.Server.Table.{Table, erase, put}

-- `path` is split at its slashes and decoded, with an empty end for a slash at the end, and `id` the
-- path value of a route. `forwarded` is the header X-Forwarded-For, empty if it is missing; `limit` is that of a
-- `MaxBytesReader` around the body.
pub record Request : Type 0 where
  pub method : Text
  pub path : List Text
  pub id : Text
  pub remote_addr : Text
  pub forwarded : Text
  pub body : Bytes
  pub limit : Option ℕ

-- The status and the headers, once they are written.
pub record Sent : Type 0 where
  pub status : ℕ
  pub headers : Table Text

pub record Writer : Type 0 where
  pub headers : Table Text
  pub sent : Option Sent
  pub body : Bytes

abbrev pub fresh : Writer
fresh = record { headers = []; sent = none; body = [] }

unfoldable pub set_header : Text → Text → Writer → Writer
set_header name value w = record w { headers = put name value w.headers }

unfoldable pub delete_header : Text → Writer → Writer
delete_header name w = record w { headers = erase name w.headers }

abbrev pub sent_now : Option Sent → ℕ → Table Text → Sent
sent_now none status headers = record { status = status; headers = headers }
sent_now (some sent) status headers = sent

-- The first call writes the status with the headers of that time; later ones change nothing.
unfoldable pub write_header : ℕ → Writer → Writer
write_header status w = record w { sent = some (sent_now w.sent status w.headers) }

-- The first write writes the status 200, if none has been.
unfoldable pub write : Bytes → Writer → Writer
unfolding write_header
write bytes w = let w' = write_header 200 w in record w' { body = w'.body ++ bytes }

-- `http.Error`
unfoldable pub http_error : Text → ℕ → Writer → Writer
unfolding set_header delete_header write_header write
http_error message status w = write (message ++ b'\n' ∷ []) (
    write_header status (
      set_header (codes "X-Content-Type-Options") (codes "nosniff") (
        set_header (codes "Content-Type") (codes "text/plain; charset=utf-8")
          (delete_header (codes "Content-Length") w))))

abbrev pub internal_error : Writer → Writer
internal_error = http_error (codes "internal error") 500

-- `http.NotFound`
abbrev pub not_found : Writer → Writer
not_found = http_error (codes "404 page not found") 404

-- How a handler ends. `S` is what the server keeps, `W` what the world adds to one request.
pub data Outcome (S : Type 0) : Type 0 where
  finished panicked : S → Writer → Outcome S

abbrev pub Handler : Type 0 → Type 0 → Type 0
Handler S W = W → S → Writer → Request → Outcome S

-- What an outcome leaves behind, and what it sends.
abbrev pub state_of : {S : Type 0} → Outcome S → S
state_of (finished s w) = s
state_of (panicked s w) = s

abbrev pub writer_of : {S : Type 0} → Outcome S → Writer
writer_of (finished s w) = w
writer_of (panicked s w) = w

abbrev pub status_sent : Option Sent → Option ℕ
status_sent none = none
status_sent (some sent) = some sent.status

abbrev pub answer_of : {S : Type 0} → Outcome S → Option ℕ × Bytes
answer_of o = (status_sent (writer_of o).sent, (writer_of o).body)

-- A handler that ends with this state and this answer.
abbrev pub EndsWith : {S : Type 0} → Outcome S → S → Option ℕ × Bytes → Type 0
EndsWith (finished s w) s' a = (s ≡ s') × (answer_of (finished s w) ≡ a)
EndsWith (panicked s w) s' a = ⊥
