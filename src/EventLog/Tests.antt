-- ===== src/EventLog/Tests.antt =====
-- internal/eventlog/log.go: the theorem at a log that has wrapped.
use mi_ster_groovy_relay.Prelude.{ℕ, ◌≡◌, [], ◌∷◌, arith}
use mi_ster_groovy_relay.EventLog.{new, append_all, snapshot}
use mi_ster_groovy_relay.EventLog.Recent.{keep, snapshot-append_all}

snapshot-append_all_example :
    snapshot {A = ℕ} (append_all (new 0 2) (1 ∷ 2 ∷ 3 ∷ [])) ≡ keep 2 (1 ∷ 2 ∷ 3 ∷ [])
snapshot-append_all_example = snapshot-append_all 0 2 (1 ∷ 2 ∷ 3 ∷ []) (omega arith)
