-- ===== src/Tests/Signed.antt =====
-- A signed request and a key change on concrete inputs.
use go_acme_server.Prelude.{refl, false, String, [], ◌∷◌, Option, none, some, if◌then◌else◌}
use go_acme_server.Exec.{◌>>=◌ as ◌>>=ₛ◌}
use go_acme_server.Table.{put, empty, string_eq}
use go_acme_server.Resource.{Account, Bytes}
use go_acme_server.Memstore.{new_store}
use go_acme_server.Memstore.Accounts.{account}
use go_acme_server.Nonce.{new_manager}
use go_acme_server.Server.{World, ◌>>=◌}
use go_acme_server.Requests.{Message, Parsed, message, bytes, Request, Signed}
use go_acme_server.Wire.{payload, bad_payload, decode_payload}
use go_acme_server.Accounts.KeyChange.{
  Inner, inner, parsed_key, InnerJws, old_thumbprint, new_thumbprint, changed_account, check_inner,
  check_change, IsKeyChange, check_change-IsKeyChange,
}
use go_acme_server.Certs.Request.{same_bytes}
use go_acme_server.Orders.Serve.{Wire}
use go_acme_server.Tests.Data.{alice, a_server}

abbrev a_message : Message
a_message = record {
  nonce = "n1";
  url = "https://ca/acme/new-order";
  key = none;
  key_id = "https://ca/acme/acct/a1";
  payload = 7 ∷ [];
  verify = λ key. none;
}

abbrev pub parse_any : Bytes → Parsed
parse_any b = message a_message

abbrev a_request : Request
a_request = record {
  media_type = some "application/jose+json";
  body = bytes (1 ∷ 2 ∷ []);
  raw_query = "";
  force_query = false;
  escaped_path = "/acme/new-order";
}

abbrev signed_by_alice : Signed
signed_by_alice = record { account = some alice; key = alice.key; payload = 7 ∷ [] }

abbrev world : World
world = record {
  store = record new_store { accounts = put "a1" alice empty };
  steps = 0;
  nonces = record (new_manager 60 2) { live = put "n1" 50 empty };
}

abbrev pub a_wire : Wire
a_wire = record {
  algorithms = [];
  parse = parse_any;
  new_order = λ b. bad_payload "";
  authorization_update = λ b. bad_payload "";
  challenge_response = λ b. bad_payload "";
  finalize = λ b. bad_payload "";
}

abbrev an_inner : Inner
an_inner = record {
  url = "https://ca/acme/key-change";
  key = 2 ∷ [];
  payload = [];
  verify = λ key. none;
}

abbrev thumbprint_of : Bytes → Option String
thumbprint_of key = if same_bytes key (1 ∷ []) then some "k1" else some "k9"

abbrev an_inner_jws : InnerJws
an_inner_jws = record {
  parse_inner = λ b. inner an_inner;
  key_change = λ b. payload (record { account = "https://ca/acme/acct/a1"; old_key = 1 ∷ [] });
  parse_jwk = λ b. parsed_key b;
  thumbprint = thumbprint_of;
}

abbrev rolled : Account
rolled = record alice { key = 2 ∷ []; key_thumbprint = "k9" }

check_change-IsKeyChange_example : IsKeyChange a_server a_wire an_inner_jws alice [] rolled
unfolding check_change check_inner decode_payload changed_account old_thumbprint new_thumbprint
check_change-IsKeyChange_example =
    check_change-IsKeyChange a_server a_wire an_inner_jws alice rolled [] refl
