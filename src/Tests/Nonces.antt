-- ===== src/Tests/Nonces.antt =====
-- The nonces of a manager with room for two.
use go_acme_server.Prelude.{
  ◌+◌, ◌≡◌, ◌≢◌, refl, arith, false, String, eq_iff, none, some, List, [], ◌∷◌, inl, ltb,
}
use go_acme_server.Table.{get, put, remove, string_eq}
use go_acme_server.Nonce.{
  Manager, new_manager, compact, purge_loop, purge, make_room, draw, prepare, issue, consume,
  issued, consumed, Call, issues, run,
}
use go_acme_server.Nonce.Capacity.{IsBounded, run-new_manager-IsBounded}
use go_acme_server.Nonce.SingleUse.{consume-single_use, consume-issue, issue-total}

abbrev fresh : Manager
fresh = new_manager 60 2

n1-ne-n2 : ◌≢◌ {A = String} "n1" "n2"
n1-ne-n2 e = ground (arith, eq_iff "n1" "n2")

n2-ne-n1 : ◌≢◌ {A = String} "n2" "n1"
n2-ne-n1 e = ground (arith, eq_iff "n2" "n1")

abbrev three_calls : List Call
three_calls =
    issues none (some "n1" ∷ []) 1
    ∷ issues none (some "n2" ∷ []) 2
    ∷ issues none (some "n3" ∷ []) 3
    ∷ []

run-new_manager-IsBounded_example : IsBounded 2 (run (new_manager 60 2) three_calls)
run-new_manager-IsBounded_example = run-new_manager-IsBounded 60 2 three_calls

consume-issue_example :
    (consume none (issue none fresh (some "n1" ∷ []) 1).1 "n1" 5).0 ≡ consumed (ltb 5 (1 + 60))
unfolding new_manager issue prepare make_room purge purge_loop compact draw get put remove
consume-issue_example =
    consume-issue fresh (issue none fresh (some "n1" ∷ []) 1).1 (some "n1" ∷ []) 1 5 "n1" refl

issue-total_example :
    (v : String) × (m : Manager) × (issue none fresh (some "n1" ∷ []) 1 ≡ (issued v, m))
unfolding new_manager prepare make_room purge purge_loop compact get
issue-total_example = issue-total fresh (some "n1" ∷ []) 1 "n1" tt (inl refl) refl

consume-single_use_example :
    (consume none
      (run
        (consume none (issue none fresh (some "n1" ∷ []) 1).1 "n1" 2).1
        (issues none (some "n2" ∷ []) 3 ∷ []))
      "n1"
      4).0
    ≡ consumed false
consume-single_use_example =
    consume-single_use (issue none fresh (some "n1" ∷ []) 1).1 "n1" 2 4
      (issues none (some "n2" ∷ []) 3 ∷ []) ((n2-ne-n1, tt), tt)
