-- ===== src/Examples/Delivered.antt =====
-- Examples of the server with a share page.
use key_bank.Base.{◌*◌, ◌≡◌, refl, [], ◌∷◌, ◌++◌, none, codes, All, ltb, arith}
use key_bank.Js.Utf8.Ascii.{IsAscii}
use key_bank.Examples.Checks.{All_of_test}
use key_bank.Crypto.Message.{decrypt_message}
use key_bank.Share.Page
use key_bank.Share.Page.{spent, reply, decrypted, run}
use key_bank.Share.Page.Opening.{Ends}
use key_bank.Server.Store.{mem_key_store}
use key_bank.Server.Store.Memory.{mem_view, MemMayUse, AnyRecord, AnyCall, mem_key_store-IsKeyStore}
use key_bank.Server.System.{answer}
use key_bank.Server.System.Exchange.{before_get, before_again}
use key_bank.Server.System.Browser.{response_of, reply-fetch}
use key_bank.Examples.Pages.{env, note, waiting, waiting-Inv}
use key_bank.Examples.Servers.{
  server, id, keys, post, get, get_home, apart, other, created, fetched,
}

private-IsAscii : All IsAscii keys.private_pem
unfolding codes
private-IsAscii = All_of_test IsAscii (λ c. ltb c 128) (λ c h. ground arith) keys.private_pem refl

reply-fetch_example :
    Ends
      (run env waiting (
        reply (
          response_of (
            answer mem_key_store
              (Unit {0})
              server
              (before_get mem_key_store (Unit {0}) server [] post (get_home ∷ []))
              get))
        ∷ decrypted 9
        ∷ []))
      (decrypt_message env.crypto keys.private_pem note.wrapped note.iv note.ct)
    × ((Page.step env waiting (
          reply (
            response_of (
              answer mem_key_store
                (Unit {0})
                server
                (before_again mem_key_store
                  (Unit {0})
                  server
                  []
                  post
                  (get_home ∷ [])
                  get
                  (get_home ∷ []))
                get)))).state
        ≡ spent)
reply-fetch_example =
    reply-fetch env mem_key_store mem_view MemMayUse AnyRecord AnyCall mem_key_store-IsKeyStore
      (Unit {0}) server id apart [] post (3600 * 1000000000) keys (id ++ codes "public")
      (get_home ∷ []) get (get_home ∷ []) get waiting none note 9 waiting none created tt
      private-IsAscii (other, tt) (fetched _) tt (omega arith) (other, tt) (fetched _) waiting-Inv
      refl refl refl
