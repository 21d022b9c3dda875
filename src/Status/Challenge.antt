-- ===== src/Status/Challenge.antt =====
-- status.go: `ChallengeStatus`.
use go_acme_server.Prelude.{Bool, true, false, ◌||◌, String, ◌==◌}

pub data ChallengeStatus : Type 0 where
  pending processing valid invalid : ChallengeStatus
  other : String → ChallengeStatus

-- `s == t`, on two statuses.
abbrev pub is : ChallengeStatus → ChallengeStatus → Bool
is pending pending = true
is processing processing = true
is valid valid = true
is invalid invalid = true
is (other a) (other b) = a == b
is _ _ = false

unfoldable pub known : ChallengeStatus → Bool
known (other a) = false
known _ = true

unfoldable pub terminal : ChallengeStatus → Bool
terminal s = is s valid || is s invalid

-- The moves that RFC 8555 section 7.1.6 allows.
unfoldable pub can_transition : ChallengeStatus → ChallengeStatus → Bool
can_transition pending next = is next processing || is next valid || is next invalid
can_transition processing next = is next valid || is next invalid
can_transition valid next = false
can_transition invalid next = false
can_transition (other a) next = false

-- The text that the constant stands for.
abbrev pub text : ChallengeStatus → String
text pending = "pending"
text processing = "processing"
text valid = "valid"
text invalid = "invalid"
text (other a) = a
