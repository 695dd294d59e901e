-- ===== src/Stock/Serving.antt =====
-- Whatever calls are served, in whatever order, the tables stay sound.
use inventory_management_sys.Base.{
  ◌≡◌, true, inl, inr, Bool-cases, if◌then◌else◌, List, [], ◌∷◌, all, All, arith,
}
use inventory_management_sys.Base.Int.{pos, ◌≤ℤ◌}
use inventory_management_sys.Base.Result.{Result, ok, err, Ensures}
use inventory_management_sys.Stock.Tables.{Db}
use inventory_management_sys.Stock.Invariant.{IsSound}
use inventory_management_sys.Stock.Service.Inbound.{ReceiptLine}
use inventory_management_sys.Stock.Requests.{
  StockRequest, receiving, opening, issuing, issuing_held, adjusting, transferring, perform,
  accepts, is_positive,
}
use inventory_management_sys.Stock.Soundness.Inbound.{
  receive-IsSound, opening_balance-IsSound, adjust-IsSound,
}
use inventory_management_sys.Stock.Soundness.Issuing.{issue-IsSound}
use inventory_management_sys.Stock.Soundness.Reserved.{OwnHold, issue_against_reservation-IsSound}
use inventory_management_sys.Stock.Soundness.Moving.{transfer-IsSound}

-- What the caller of a call sees to: a hold that is drawn on is one on the stock that is issued.
abbrev pub Allowed : StockRequest → Db → Type 0
Allowed (issuing_held wiring c req) db = OwnHold req db
Allowed _ db = Unit {0}

pub all-positive :
    (ls : List ReceiptLine)
    → all (λ l. is_positive l.quantity) ls ≡ true
    → All (λ l. pos 0 ≤ℤ l.quantity) ls
all-positive [] h = tt
all-positive (l ∷ ls) h = (ground arith, all-positive ls (ground arith))

perform-IsSound :
    (r : StockRequest) (db : Db)
    → accepts r ≡ true
    → Allowed r db
    → IsSound db
    → Ensures (λ _. IsSound) (perform r db)
unfolding perform accepts
perform-IsSound (receiving c req) db h a s =
    (receive-IsSound c req (all-positive req.lines (ground arith))).at db s
perform-IsSound (opening user req) db h a s = (opening_balance-IsSound user req).at db s
perform-IsSound (issuing wiring c req) db h a s = (issue-IsSound wiring c req).at db s
perform-IsSound (issuing_held wiring c req) db h a s =
    (issue_against_reservation-IsSound wiring c req).at db (s, a)
perform-IsSound (adjusting c req) db h a s = (adjust-IsSound c req).at db s
perform-IsSound (transferring c req) db h a s = (transfer-IsSound c req (ground arith)).at db s

-- `get_db`: commit on success, roll back on an exception.
abbrev pub committed : Db → Result (Unit {0} × Db) → Db
committed db (ok (_, db')) = db'
committed db (err _) = db

unfoldable pub serve_one : StockRequest → Db → Db
serve_one r db = if accepts r then committed db (perform r db) else db

-- Calls, one after another, each in its own transaction.
unfoldable pub serve : List StockRequest → Db → Db
serve [] db = db
serve (r ∷ rs) db = serve rs (serve_one r db)

-- Each call is allowed when its turn comes.
abbrev pub AllAllowed : List StockRequest → Db → Type 0
AllAllowed [] db = Unit {0}
AllAllowed (r ∷ rs) db = Allowed r db × AllAllowed rs (serve_one r db)

committed-IsSound :
    (db : Db) (r : Result (Unit {0} × Db))
    → IsSound db
    → Ensures (λ _. IsSound) r
    → IsSound (committed db r)
committed-IsSound db (ok (_, db')) s h = h
committed-IsSound db (err _) s h = s

serve_one-IsSound :
    (r : StockRequest) (db : Db) → Allowed r db → IsSound db → IsSound (serve_one r db)
unfolding serve_one
serve_one-IsSound r db a s = elim (Bool-cases (accepts r)) [
  | inl yes_accepts ↦
      rw yes_accepts (committed-IsSound db (perform r db) s (perform-IsSound r db yes_accepts a s))
  | inr refused ↦ rw refused s
]

-- Whatever sequence of stock calls is served from sound tables, accepted or not and returning or
-- not: each quantity of each inventory row is the sum of the ledger movements booked on it, the
-- reserved quantity is the sum of the active holds, and no quantity is negative. The one condition
-- on the callers is that a hold which `issue_against_reservation` draws on is a hold on the stock
-- that it issues.
pub serve-IsSound :
    (rs : List StockRequest) (db : Db) → AllAllowed rs db → IsSound db → IsSound (serve rs db)
unfolding serve
serve-IsSound [] db a s = s
serve-IsSound (r ∷ rs) db (a, rest) s =
    serve-IsSound rs (serve_one r db) rest (serve_one-IsSound r db a s)
