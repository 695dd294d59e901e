-- ===== src/Stock/Reserving.antt =====
-- reservation_repo.py: what the life of a hold does to the row that it is on.
use inventory_management_sys.Base.{ℕ, String, Option, some}
use inventory_management_sys.Base.Int.{ℤ, pos, ◌≤ℤ◌}
use inventory_management_sys.Base.Result.{Ensures}
use inventory_management_sys.Stock.Tables.{Inventory, InventoryReservation, Db}
use inventory_management_sys.Stock.Invariant.{IsSound}
use inventory_management_sys.Stock.Posting.{Locked}
use inventory_management_sys.Stock.Reservations.{reserve, consume, release}
use inventory_management_sys.Stock.Soundness.Holds.{HeldOn, Unheld, consume-Unheld}
use inventory_management_sys.Stock.Soundness.Release.{Released, release-Released, reserve-IsSound}

-- A hold of a quantity that is not negative, on a row that is locked in sound tables, leaves them
-- sound: the reserved quantity of the row is the sum of its holds, the new one included.
pub reserve_lem :
    {p w : ℕ} (inv : Inventory) (q : ℤ) (id : ℕ) (user : Option ℕ) (kind : String) (db : Db)
    → pos 0 ≤ℤ q
    → Locked p w inv db
    → Ensures (λ _. IsSound) (reserve inv q id user kind db)
reserve_lem {p} {w} inv q id user kind db h l = (reserve-IsSound p w inv q id user kind h).at db l

-- Consuming up to `q` units of a hold on a locked row leaves the tables sound, takes from the
-- reserved quantity of the row what the hold had of `q`, and no unit from the row.
pub consume_lem :
    {p w id : ℕ} {kind : String} (inv : Inventory) (r : InventoryReservation) (q : ℤ)
    (user : Option ℕ) (db : Db)
    → pos 0 ≤ℤ q
    → HeldOn p w id kind inv r db
    → Ensures (Unheld p w inv q (some r)) (consume inv r q user db)
consume_lem inv r q user db h on = (consume-Unheld inv r q user h).at db on

-- Releasing a hold on a locked row leaves the tables sound and takes the whole hold from the
-- reserved quantity of the row, and no unit from the row.
pub release_lem :
    {p w id : ℕ} {kind : String} (inv : Inventory) (r : InventoryReservation) (user : Option ℕ)
    (db : Db)
    → HeldOn p w id kind inv r db
    → Ensures (Released p w inv r) (release inv r user db)
release_lem inv r user db on = (release-Released inv r user).at db on
