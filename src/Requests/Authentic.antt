-- ===== src/Requests/Authentic.antt =====
-- request.go: what is known of a request that was let through.
use go_acme_server.Prelude.{
  suc, ◌≡◌, true, false, String, Option, none, some, List, concat, length, ◌≤◌,
}
use go_acme_server.Exec.{◌>>=◌ as ◌>>=ₛ◌}
use go_acme_server.Table.{get, string_eq}
use go_acme_server.Status.Account.{AccountStatus, is as account_is}
use go_acme_server.Resource.{Account, Bytes}
use go_acme_server.Memstore.{Store}
use go_acme_server.Memstore.Accounts.{account}
use go_acme_server.Nonce.{consumed, consume}
use go_acme_server.Server.{Server, World, ◌>>=◌}
use go_acme_server.Requests.{
  KeyMode, is_account_mode, is_embedded_mode, Message, Parsed, message, bytes, Request, Signed,
  account_id_from_url, expected_url,
}

-- The key is the one in the header where the mode lets it be, or the one of an account of this
-- server that the header names, as the store has it when it is looked up, and that is valid there.
pub data Authentic (mode : KeyMode) (m : Message) (of_url : String → Option String) (store : Store)
    (r : Signed) : Type 0 where
  by_header :
      is_account_mode mode ≡ false
      → m.key ≡ some r.key
      → r.account ≡ none
      → Authentic mode m of_url store r
  by_account :
      is_embedded_mode mode ≡ false
      → (id : String) (a : Account) → of_url m.key_id ≡ some id
      → get id store.accounts ≡ some a
      → a.status ≡ AccountStatus.valid
      → r.account ≡ some a
      → r.key ≡ a.key
      → Authentic mode m of_url store r

module _ (s : Server) (algorithms : List String) (parse : Bytes → Parsed) where
  -- The store at the step after the nonce: other requests act before each of the two.
  abbrev pub store_at_lookup : World → Store
  store_at_lookup w = s.interfere (suc w.steps) (s.interfere w.steps w.store)

  -- What a request that was let through has shown.
  abbrev pub Shown : Request → String → KeyMode → World → Message → Signed → Type 0
  Shown r rel mode w m signed =
      ((consume (s.ctx w.steps) (s.interfere_nonces w.steps w.nonces) m.nonce (s.clock w.steps)).0
        ≡ consumed true)
      × (m.url ≡ expected_url s algorithms parse r rel)
      × (r.escaped_path ≡ concat s.config.base_path rel)
      × (m.verify signed.key ≡ none)
      × (signed.payload ≡ m.payload)
      × Authentic mode m (account_id_from_url s algorithms parse) (store_at_lookup w) signed

  -- The body that a message was parsed from.
  abbrev pub Carries : Request → Message → Type 0
  Carries r m =
      (r.media_type ≡ some "application/jose+json")
      × (body : Bytes) × (r.body ≡ bytes body)
      × (length body ≤ s.config.max_body)
      × (parse body ≡ message m)
