-- ===== src/Status/Authorization.antt =====
-- status.go: `AuthorizationStatus`.
use go_acme_server.Prelude.{Bool, true, false, ◌&&◌, ◌||◌, not, String, ◌==◌}

pub data AuthorizationStatus : Type 0 where
  pending valid invalid deactivated expired revoked : AuthorizationStatus
  other : String → AuthorizationStatus

-- `s == t`, on two statuses.
abbrev pub is : AuthorizationStatus → AuthorizationStatus → Bool
is pending pending = true
is valid valid = true
is invalid invalid = true
is deactivated deactivated = true
is expired expired = true
is revoked revoked = true
is (other a) (other b) = a == b
is _ _ = false

unfoldable pub known : AuthorizationStatus → Bool
known (other a) = false
known _ = true

unfoldable pub terminal : AuthorizationStatus → Bool
unfolding known
terminal s = known s && not (is s pending) && not (is s valid)

-- The moves that RFC 8555 section 7.1.6 allows.
unfoldable pub can_transition : AuthorizationStatus → AuthorizationStatus → Bool
can_transition pending next =
    is next valid || is next invalid || is next deactivated || is next expired
can_transition valid next = is next deactivated || is next expired || is next revoked
can_transition invalid next = false
can_transition deactivated next = false
can_transition expired next = false
can_transition revoked next = false
can_transition (other a) next = false

-- The text that the constant stands for.
abbrev pub text : AuthorizationStatus → String
text pending = "pending"
text valid = "valid"
text invalid = "invalid"
text deactivated = "deactivated"
text expired = "expired"
text revoked = "revoked"
text (other a) = a
