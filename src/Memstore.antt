-- ===== src/Memstore.antt =====
-- memstore/memstore.go: the in-memory store. The record is the state that the mutex guards, each
-- method an action on it in the modules below. Values are immutable here, so the copies that the
-- source makes (`cloneAccount` and the like) are the values themselves. A Go map is a table.
pub mod Checks
pub mod Accounts
pub mod Orders
pub mod Authorizations
pub mod Certificates
pub mod Tasks
pub mod Work
pub mod Atomicity
pub mod Revisions
pub mod Fencing
pub mod Scheduling
pub mod AccountIndex
pub mod Once
pub mod Dispatch
pub mod Invalidation
pub mod Revoking
use go_acme_server.Prelude.{ℕ, Bool, true, ◌&&◌, ◌||◌, ◌≡◌, ◌↔◌, String, ◌==◌, eq_iff, List, arith}
use go_acme_server.Table.{Table, Eq, empty}
use go_acme_server.Problem.{Identifier, same_identifier, same_identifier_iff}
use go_acme_server.Resource.{Account, Order, Authorization, Challenge, Certificate, Task}

-- An account and a complete identifier, wildcard scope included.
pub record AuthorizationKey : Type 0 where
  pub account_id : String
  pub identifier : Identifier

abbrev pub same_key : AuthorizationKey → AuthorizationKey → Bool
same_key a b = a.account_id == b.account_id && same_identifier a.identifier b.identifier

pub same_key_iff : (a b : AuthorizationKey) → (same_key a b ≡ true) ↔ (a ≡ b)
same_key_iff a b = (
  λ h.
      ground
        (arith, eq_iff a.account_id b.account_id, same_identifier_iff a.identifier b.identifier),
  λ h.
      ground
        (arith, eq_iff a.account_id b.account_id, same_identifier_iff a.identifier b.identifier),
)

instance abbrev pub key_eq : Eq AuthorizationKey
key_eq = record { beq = same_key; beq_iff = same_key_iff }

pub record Store : Type 0 where
  pub accounts : Table String Account
  pub account_by_key : Table String String
  pub account_by_claim : Table String String
  pub orders : Table String Order
  pub order_ids : Table String (List String)
  pub authzs : Table String Authorization
  pub authz_index : Table AuthorizationKey (List String)
  pub challenges : Table String Challenge
  pub certificates : Table String Certificate
  pub cert_by_renewal : Table String String
  pub tasks : Table String Task
  pub task_sequence : ℕ
  pub task_insertion : Table String ℕ

-- `New`.
abbrev pub new_store : Store
new_store = record {
  accounts = empty;
  account_by_key = empty;
  account_by_claim = empty;
  orders = empty;
  order_ids = empty;
  authzs = empty;
  authz_index = empty;
  challenges = empty;
  certificates = empty;
  cert_by_renewal = empty;
  tasks = empty;
  task_sequence = 0;
  task_insertion = empty;
}
