-- ===== src/Examples/Operations.antt =====
-- An outbox with an entry that is due and one that is not.
use isms_portal.Base.{String, ◌≡◌, refl, Bool, true, false, none, List, [], ◌∷◌, arith, All}
use isms_portal.Operations.{OutboxEntry, is_due, dispatch_outbox}
use isms_portal.Operations.Outbox.{dispatch_clears}

abbrev later_or_same : String → String → Bool
later_or_same a b = true

abbrev takes_all : String → Bool
takes_all id = true

abbrev outbox : List OutboxEntry
outbox =
    record { id = "n1"; payload = "{}"; queued_at = none; next_attempt_at = 5; attempts = 1 }
    ∷ record { id = "n2"; payload = "{}"; queued_at = none; next_attempt_at = 50; attempts = 0 }
    ∷ []

dispatch_clears_example :
    All (λ r. is_due 10 r ≡ false) (dispatch_outbox later_or_same takes_all 10 outbox).0
dispatch_clears_example =
    dispatch_clears later_or_same takes_all 10 outbox (λ id. refl) (omega arith)
