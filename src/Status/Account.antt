-- ===== src/Status/Account.antt =====
-- status.go: `AccountStatus`.
use go_acme_server.Prelude.{Bool, true, false, ◌&&◌, ◌||◌, String, ◌==◌}

pub data AccountStatus : Type 0 where
  valid deactivated revoked : AccountStatus
  other : String → AccountStatus

-- `s == t`, on two statuses.
abbrev pub is : AccountStatus → AccountStatus → Bool
is valid valid = true
is deactivated deactivated = true
is revoked revoked = true
is (other a) (other b) = a == b
is _ _ = false

unfoldable pub known : AccountStatus → Bool
known (other a) = false
known _ = true

-- The moves that RFC 8555 section 7.1.6 allows.
unfoldable pub can_transition : AccountStatus → AccountStatus → Bool
can_transition s next = is s valid && (is next deactivated || is next revoked)

-- The text that the constant stands for.
abbrev pub text : AccountStatus → String
text valid = "valid"
text deactivated = "deactivated"
text revoked = "revoked"
text (other a) = a
