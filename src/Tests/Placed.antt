-- ===== src/Tests/Placed.antt =====
-- New orders, finalizations, issued chains and revocations on concrete inputs.
use go_acme_server.Prelude.{
  inl, inr, refl, arith, true, false, [], ◌∷◌, none, some, eq_iff, ◌==◌, Bool-cases,
}
use go_acme_server.Exec.{◌>>=◌ as ◌>>=ₛ◌}
use go_acme_server.Table.{get, put, get-put, get-empty, empty, string_eq}
use go_acme_server.Status.Order.{OrderStatus}
use go_acme_server.Problem.{dns}
use go_acme_server.Resource.{Order, Certificate, IssueResult, status_at}
use go_acme_server.Memstore.{new_store}
use go_acme_server.Memstore.Certificates.{update_certificate}
use go_acme_server.Nonce.{new_manager}
use go_acme_server.Text.{to_lower, lower_char, split, trim_prefix}
use go_acme_server.Identifiers.{
  named, normalize, normalize_dns, check_dns_name, check_labels, check_dns_label, valid_a_label,
  normalize_loop, normalize_identifiers,
}
use go_acme_server.Server.{World, pure, now, call, new_id, ask_host, ask_limiter, ◌>>=◌}
use go_acme_server.Answer.{host_problem, check_limit}
use go_acme_server.Requests.{Signed}
use go_acme_server.Wire.{OrderView, order_view}
use go_acme_server.Renewal.{check_replaces}
use go_acme_server.Orders.Methods.{count_identifiers, challenge_types_for}
use go_acme_server.Orders.New.{
  NewOrder, check_combination, parse_time, check_type, check_types, check_methods, check_normalized,
  order_identifiers, order_dates, select_profile, reviewed_order, review_order, new_order,
  build_from, build_order,
}
use go_acme_server.Orders.Requested.{IsRequested, build_order-IsRequested}
use go_acme_server.Certs.{Subject, ed25519, CertificateRequest, Leaf, X509}
use go_acme_server.Worker.Publish.{Ca}
use go_acme_server.Revocation.{
  authorize_revocation, begin_loop, begin_revocation, record_loop, record_revocation, after_revoke,
  revoke_certificate,
}
use go_acme_server.Revocation.Recorded.{IsKeyed, KeepsKeys}
use go_acme_server.Revocation.Authorized.{MayRevoke}
use go_acme_server.Revocation.Complete.{GivesIds, IsRevokedFor, revoke_certificate-IsRevokedFor}
use go_acme_server.Tests.Identifiers.{documented}
use go_acme_server.Tests.Data.{alice, an_order, an_authz, a_certificate, a_server}

abbrev payload : NewOrder
payload = record {
  identifiers = named dns "Example.com" ∷ [];
  not_before = "";
  not_after = "";
  replaces = "";
  profile = "";
}

abbrev world : World
world = record {
  store = record new_store {
    accounts = put "a1" alice empty;
    orders = put "o1" an_order empty;
    authzs = put "z1" an_authz empty;
    certificates = put "e1" a_certificate empty;
  };
  steps = 0;
  nonces = new_manager 60 2;
}

abbrev placed : Order
placed = record an_order { id = "x1"; authorization_ids = []; created_at = 10; revision = 0 }

build_order-IsRequested_example : IsRequested a_server alice payload 10 world placed
unfolding build_order order_identifiers check_types check_type check_normalized check_combination
    count_identifiers check_methods challenge_types_for normalize_identifiers normalize_loop
    normalize normalize_dns check_dns_name check_labels check_dns_label valid_a_label to_lower
    lower_char split trim_prefix order_dates parse_time build_from select_profile check_replaces
    check_limit host_problem review_order reviewed_order new_order new_id ask_host ask_limiter pure
    ◌>>=◌
build_order-IsRequested_example =
    build_order-IsRequested a_server documented alice payload 10 world placed refl

abbrev subject : Subject
subject = record {
  extensions = [];
  dns_names = "example.com" ∷ [];
  ip_addresses = [];
  uris = [];
  common_name = "";
}

abbrev a_request : CertificateRequest
a_request = record {
  subject = subject;
  spki = 3 ∷ [];
  is_signed = true;
  key = some ed25519;
  key_der = some (3 ∷ []);
}

abbrev a_leaf : Leaf
a_leaf = record {
  subject = subject;
  spki = 3 ∷ [];
  not_before = 5;
  not_after = 80;
  is_ca = false;
  thumbprint = some "k3";
}

abbrev x509 : X509
x509 = record {
  parse_request = λ der. some a_request;
  parse_certificate = λ der. some a_leaf;
  marshal_key = λ key. some key;
  thumbprint = λ key. some "k1";
  unmarshal_names = λ der. none;
  unmarshal_constraints = λ der. none;
  is_signed_by = λ cert parent. true;
  certificate_id = λ der. "e1";
  renewal_id = λ leaf. "";
}

abbrev view : OrderView
unfolding order_view status_at
view =
    order_view a_server
      (record an_order { status = OrderStatus.processing; csr = 9 ∷ []; revision = 2 }) 10

abbrev a_result : IssueResult
a_result = record {
  chain = (1 ∷ []) ∷ [];
  ca_reference = "";
  pending = false;
  retry_after = 0;
  rejected = none;
}

abbrev a_ca : Ca
a_ca = record { issue = λ n r. (a_result, none); policy = none }

abbrev signed_by_alice : Signed
signed_by_alice = record { account = some alice; key = alice.key; payload = [] }

keeps : KeepsKeys a_server x509
keeps n st k = k

gives_ids : GivesIds a_server x509
gives_ids n id h e = ground (arith, eq_iff "x1" "")

keyed : IsKeyed world.store
keyed id c h =
    let g = get-put id "e1" a_certificate empty in
    elim (Bool-cases ("e1" == id)) [
      | inl e ↦ let same = (eq_iff "e1" id).0 e in ground arith
      | inr e ↦ absurd (ground (arith, get-empty {V = Certificate} id))
    ]

revoke_certificate-IsRevokedFor_example :
    MayRevoke a_server x509 signed_by_alice a_certificate a_leaf world
    × IsRevokedFor a_server x509 signed_by_alice a_certificate
        (1 ∷ [])
        (begin_revocation a_server x509 a_certificate 1
          (authorize_revocation a_server x509 signed_by_alice a_certificate a_leaf world).1).1
        (revoke_certificate a_server x509 signed_by_alice a_certificate
          (1 ∷ [])
          a_leaf
          1
          world).1.store
unfolding revoke_certificate authorize_revocation begin_revocation begin_loop after_revoke
    record_revocation record_loop update_certificate new_id ask_host now call pure ◌>>=◌ ◌>>=ₛ◌ get
    put
revoke_certificate-IsRevokedFor_example =
    revoke_certificate-IsRevokedFor a_server x509 keeps gives_ids signed_by_alice a_certificate
      (1 ∷ []) a_leaf 1 world keyed refl
