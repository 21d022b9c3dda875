-- ===== src/Problem.antt =====
-- problem.go: the ACME problem documents, and the identifiers of identifier.go that they name.
-- A `Detail` that the source formats is built by `++`.
use go_acme_server.Prelude.{
  ℕ, Bool, true, false, ◌&&◌, ◌≡◌, ◌↔◌, refl, ap, String, ◌==◌, eq_iff, arith, Option, none, some,
  List, [], if◌then◌else◌, ◌=?◌,
}
use go_acme_server.Table.{Eq}
use text.Mathlib.Text.{starts_with}

pub data IdentifierType : Type 0 where
  dns ip tn_auth_list nf_instance_id uri : IdentifierType
  other : String → IdentifierType

abbrev pub is_type : IdentifierType → IdentifierType → Bool
is_type dns dns = true
is_type ip ip = true
is_type tn_auth_list tn_auth_list = true
is_type nf_instance_id nf_instance_id = true
is_type uri uri = true
is_type (other a) (other b) = a == b
is_type _ _ = false

pub record Identifier : Type 0 where
  pub kind : IdentifierType
  pub value : String

-- `a == b`, on two identifiers.
abbrev pub same_identifier : Identifier → Identifier → Bool
same_identifier a b = is_type a.kind b.kind && a.value == b.value

is_type_refl : (a : IdentifierType) → is_type a a ≡ true
is_type_refl (other a) = (eq_iff a a).1 refl
is_type_refl dns = refl
is_type_refl _ = refl

is_type_sound : (a b : IdentifierType) → is_type a b ≡ true → a ≡ b
is_type_sound (other a) (other b) h = ap other ((eq_iff a b).0 h)
is_type_sound a b h = ground arith

pub same_identifier_iff : (a b : Identifier) → (same_identifier a b ≡ true) ↔ (a ≡ b)
same_identifier_iff a b = (
  λ h. ground (arith, is_type_sound a.kind b.kind, eq_iff a.value b.value),
  λ h. ground (arith, is_type_refl a.kind, eq_iff a.value a.value),
)

instance abbrev pub identifier_eq : Eq Identifier
identifier_eq = record { beq = same_identifier; beq_iff = same_identifier_iff }

-- A DNS name whose leftmost label is a wildcard.
abbrev pub is_wildcard : Identifier → Bool
is_wildcard id = is_type id.kind dns && starts_with id.value "*."

pub data ErrorType : Type 0 where
  account_does_not_exist already_replaced already_revoked bad_csr bad_nonce : ErrorType
  bad_public_key bad_revocation_reason bad_signature_algorithm caa compound connection : ErrorType
  dns dnssec external_account_required incorrect_response invalid_contact : ErrorType
  invalid_profile malformed order_not_ready rate_limited rejected_identifier : ErrorType
  server_internal tls unauthorized unsupported_contact unsupported_identifier : ErrorType
  user_action_required : ErrorType
  other : String → ErrorType

-- The HTTP status of a type, `none` for a type that is not in the table.
default_status : ErrorType → Option ℕ
default_status account_does_not_exist = some 400
default_status already_replaced = some 409
default_status bad_csr = some 400
default_status caa = some 403
default_status external_account_required = some 403
default_status order_not_ready = some 403
default_status rate_limited = some 429
default_status server_internal = some 500
default_status unauthorized = some 403
default_status user_action_required = some 403
default_status (other a) = none
default_status _ = some 400

mutual
  pub data Problem : Type 0 where
    -- Type, Detail, Status, Identifier, Subproblems, Algorithms, RetryAfter.
    problem : ErrorType → String → ℕ → Option Identifier → Problems → List String → ℕ → Problem

  pub data Problems : Type 0 where
    end : Problems
    and : Problem → Problems → Problems

abbrev pub new_problem : ErrorType → String → Problem
new_problem t detail = problem t detail 0 none end [] 0

-- The status that a problem is written with.
abbrev pub http_status : Problem → ℕ
unfolding default_status
http_status (problem t d status i s a r) =
    if status =? 0 then elim (default_status t) [ none ↦ 500 | some n ↦ n ] else status

abbrev pub with_status : ℕ → Problem → Problem
with_status n (problem t d status i s a r) = problem t d n i s a r

abbrev pub with_identifier : Identifier → Problem → Problem
with_identifier id (problem t d n i s a r) = problem t d n (some id) s a r

abbrev pub with_retry_after : ℕ → Problem → Problem
with_retry_after w (problem t d n i s a r) = problem t d n i s a w

abbrev pub with_algorithms : List String → Problem → Problem
with_algorithms l (problem t d n i s a r) = problem t d n i s l r
