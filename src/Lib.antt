-- ===== src/Lib.antt =====
-- KeyBank, a bank of one-time keys: the code that runs in the browser, the modules of static/, and the
-- server, which is Go.
--
-- A note is encrypted in the sender's browser with a fresh AES key, that key is wrapped with an RSA key
-- whose private half the server keeps, and all of it goes behind the `#` of a link. The recipient's page
-- reads the link, asks the server once for the private key, and decrypts the note.
--
-- The parts and their files:
-- - Base: names that all modules share; JavaScript's exceptions as values (Base/Errors: `thrown` with a
--   message, `rejected` for one of the browser itself, `unfinished` for fuel that has run out).
--   A text is the list of its UTF-16 code units.
-- - Js: the functions of the platform that the code calls: `btoa` and `atob` (Js/Base64), TextEncoder
--   and TextDecoder (Js/Utf8), URLSearchParams and encodeURIComponent (Js/Url), numbers (Js/Number).
-- - Crypto: static/crypto.js. Crypto/Codec has bytesToBase64, base64ToBytes and their base64url
--   variants, Crypto/Pem pemToBytes, Crypto/Message encryptMessage and decryptMessage. Crypto/Web is the
--   Web Crypto API, a record of operations that the definitions take, with its documented laws.
-- - Link: static/link.js. buildShareURL, parseFragment, splitShareURL and estimateLinkLength;
--   `window.location.origin` is an argument, `new URL` a parameter.
-- - Note: static/crypto.js and static/link.js together, from a text to a link and back.
-- - Ui: static/ui.js. An element is a record of what the code sets; `toLocaleString` is a parameter.
-- - Api: static/api.js. A function with an `await` is two definitions, before it (`start_send`) and after
--   (`finish_send`); `Net` holds the ledger and the requests of the page.
--   The text of a response may fail to arrive.
-- - Share: static/share.js. Share/Reveal is `reveal`, a machine of ticks and clicks; Share/Page is
--   `initSharePage`, a machine whose events are new addresses, clicks, replies and decryptions.
-- - Create: static/create.js. Create/Expiry is the choice of a lifetime (`selectedTTL`,
--   `configureExpiryOptions`), Create/Page is `initCreatePage`, a machine whose events are edits of the
--   form, its submission, the answer to the warning for a large note, replies, encryptions, and the copying
--   and sharing of the link. The QR library and `response.json()` are parameters.
-- - App: static/app.js, which writes the first entry of the ledger and starts a page.
-- - Server: the server. A string is the list of its bytes, a time a number of nanoseconds, an error
--   `fails`. Server/Redis is Redis, a record of commands with their documented laws; a `Network` lists
--   what becomes of the transmissions of one command, since go-redis sends a command again that is not
--   answered, by default three times: each is answered, or lost on the way, or its answer is lost. Server/Store is store.go and record.go: a `KeyStore` is a record of a
--   state, `save` and `load`; Server/Store/Contract is what both stores promise, and `save_nx` the saving
--   of internal/store/store.go. Server/Http is what the handlers use of net/http: a `Writer` is the
--   response so far. Server/Handlers is handlers/handlers.go, Server/Middleware
--   handlers/middleware.go, Server/Limiter ratelimit.go. Server/Routes is newAppHandler of server.go:
--   `route` is what the patterns come to, `app` the whole. Server/System runs the requests of all clients
--   one after the other, in the order in which the store serves them, and
--   Server/System/Browser puts a share page in front of it; Server/Config is config.go, and
--   Server/Main the servers that main.go makes of it.
-- - Examples: the theorems at concrete inputs, with a browser whose operations are concrete functions, and
--   a small Redis that keeps the laws.
--
-- The loop of bytesToBase64 runs on fuel, one more than the number of bytes, which is enough for every
-- chunk size above zero; decimal text takes one more than the number. All else is structural recursion.
--
-- The loop of RedisKeyStore.Save has its three attempts as a count.
--
-- Not modelled: elements that the code finds in the page but does not read, focus, selection and styles,
-- the headers of a request, static/qrcode.js, which is a third party's. Of the server: logs, the making of
-- RSA keys, the JSON decoder, the templates and the file server, which are parameters; listening, signals
-- and the shutdown in main.go; interleavings inside one request, since each touches the store once and the
-- limiter once before it; and what other clients do between two transmissions of one command, which
-- count as one moment. The decoder of a body may panic, the other parameters do not.
pub mod Base
pub mod Js
pub mod Crypto
pub mod Link
pub mod Note
pub mod Ui
pub mod Api
pub mod Share
pub mod Create
pub mod App
pub mod Server
pub mod Examples
