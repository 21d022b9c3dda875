-- ===== src/Status/Order.antt =====
-- status.go: `OrderStatus`.
use go_acme_server.Prelude.{Bool, true, false, ◌||◌, String, ◌==◌}

pub data OrderStatus : Type 0 where
  pending ready processing valid invalid : OrderStatus
  other : String → OrderStatus

-- `s == t`, on two statuses.
abbrev pub is : OrderStatus → OrderStatus → Bool
is pending pending = true
is ready ready = true
is processing processing = true
is valid valid = true
is invalid invalid = true
is (other a) (other b) = a == b
is _ _ = false

unfoldable pub known : OrderStatus → Bool
known (other a) = false
known _ = true

unfoldable pub terminal : OrderStatus → Bool
terminal s = is s valid || is s invalid

-- The moves that RFC 8555 section 7.1.6 allows.
unfoldable pub can_transition : OrderStatus → OrderStatus → Bool
can_transition pending next = is next ready || is next invalid
can_transition ready next = is next processing || is next invalid
can_transition processing next = is next valid || is next invalid
can_transition valid next = false
can_transition invalid next = false
can_transition (other a) next = false

-- The text that the constant stands for.
abbrev pub text : OrderStatus → String
text pending = "pending"
text ready = "ready"
text processing = "processing"
text valid = "valid"
text invalid = "invalid"
text (other a) = a
