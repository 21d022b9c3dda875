-- ===== src/Routes.antt =====
-- server.go: where a request is routed. The method and the path are what the router reads of it.
use go_acme_server.Prelude.{not, ◌&&◌, String, ◌==◌, Option, none, some, if◌then◌else◌}
use Prim.Native.String.{len, slice}
use text.Mathlib.Text.{starts_with}
use go_acme_server.Text.{cut}
use go_acme_server.Requests.{valid_id}

-- The handlers that `servePOST` runs, with the ID in the path.
pub data PostTarget : Type 0 where
  new_account new_order revoke_cert key_change : PostTarget
  account account_orders order finalize authorization challenge certificate : String → PostTarget

-- Where a request goes.
pub data Target : Type 0 where
  directory new_nonce : Target
  renewal_info profile : String → Target
  post : PostTarget → Target
  method_not_allowed not_found : Target

-- `servePOST`
unfoldable pub serve_post : String → PostTarget → Target
serve_post method target = if not (method == "POST") then method_not_allowed else post target

-- The handler of a resource with an ID, none where the path names no resource.
unfoldable pub resource_handler : String → String → String → Option PostTarget
resource_handler kind id suffix =
    if kind == "acct" && suffix == ""
    then some (account id)
    else if kind == "acct" && suffix == "orders"
    then some (account_orders id)
    else if kind == "order" && suffix == ""
    then some (order id)
    else if kind == "order" && suffix == "finalize"
    then some (finalize id)
    else if kind == "authz" && suffix == ""
    then some (authorization id)
    else if kind == "chall" && suffix == ""
    then some (challenge id)
    else if kind == "cert" && suffix == ""
    then some (certificate id)
    else none

-- The two parts of what `strings.Cut` leaves where it does not find the separator.
abbrev pub parts : String → Option (String × String) → String × String
parts whole none = (whole, "")
parts whole (some halves) = halves

abbrev pub serve_handler : String → Option PostTarget → Target
unfolding serve_post
serve_handler method none = not_found
serve_handler method (some target) = serve_post method target

-- A resource of a kind with the rest of its path.
unfoldable pub serve_kind : String → String → String → Target
unfolding valid_id cut resource_handler serve_post
serve_kind method kind rest =
    let (id, suffix) = parts rest (cut 47 rest) in
    if kind == "renewal-info"
    then renewal_info rest
    else if kind == "profiles"
    then profile rest
    else if not (valid_id id)
    then not_found
    else serve_handler method (resource_handler kind id suffix)

-- `serveResource`
unfoldable pub serve_resource : String → String → Target
unfolding cut serve_kind
serve_resource method rel = elim (cut 47 rel) [
  | none ↦ not_found
  | some (kind, rest) ↦ serve_kind method kind rest
]

-- `ServeHTTP`, behind the prefix of the server.
unfoldable pub serve_relative : String → String → Target
unfolding serve_post serve_resource
serve_relative method rel =
    if rel == "directory"
    then directory
    else if rel == "new-nonce"
    then new_nonce
    else if rel == "new-account"
    then serve_post method new_account
    else if rel == "new-order"
    then serve_post method new_order
    else if rel == "revoke-cert"
    then serve_post method revoke_cert
    else if rel == "key-change"
    then serve_post method key_change
    else serve_resource method rel

-- `ServeHTTP`
unfoldable pub serve_http : String → String → String → Target
unfolding serve_relative
serve_http base_path method path =
    if not (starts_with path base_path)
    then not_found
    else serve_relative method (slice path (len base_path) (len path))
