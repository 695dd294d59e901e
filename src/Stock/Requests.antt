-- ===== src/Stock/Requests.antt =====
-- The calls of the stock service as one type, with what schemas/inventory.py accepts, and the
-- goods that each call moves, as an abstract stock would see it.
use inventory_management_sys.Base.{
  ℕ, Bool, true, false, ◌&&◌, not, ◌==◌, List, [], ◌∷◌, all, if◌then◌else◌,
}
use inventory_management_sys.Base.Int.{ℤ, pos, ◌+ℤ◌, ◌-ℤ◌, ltb_ℤ, eqb_ℤ}
use inventory_management_sys.Base.Result.{Tx}
use inventory_management_sys.Stock.Tables.{Db}
use inventory_management_sys.Stock.Context.{Call, Wiring}
use inventory_management_sys.Stock.Service.Inbound.{
  ReceiptLine, ReceiveStockRequest, receive, OpeningBalance, opening_balance, AdjustStockRequest,
  adjust,
}
use inventory_management_sys.Stock.Service.Issue.{IssueLine, IssueStockRequest, issue}
use inventory_management_sys.Stock.Service.Held.{HeldIssue, issue_against_reservation}
use inventory_management_sys.Stock.Service.Relocate.{TransferStockRequest, transfer}

pub data StockRequest : Type 0 where
  receiving : Call → ReceiveStockRequest → StockRequest
  opening : ℕ → OpeningBalance → StockRequest
  issuing : Wiring → Call → IssueStockRequest → StockRequest
  issuing_held : Wiring → Call → HeldIssue → StockRequest
  adjusting : Call → AdjustStockRequest → StockRequest
  transferring : Call → TransferStockRequest → StockRequest

unfoldable pub perform : StockRequest → Tx Db (Unit {0})
perform (receiving c req) = receive c req
perform (opening user req) = opening_balance user req
perform (issuing wiring c req) = issue wiring c req
perform (issuing_held wiring c req) = issue_against_reservation wiring c req
perform (adjusting c req) = adjust c req
perform (transferring c req) = transfer c req

-- `Field(gt=0)`
abbrev pub is_positive : ℤ → Bool
is_positive q = ltb_ℤ (pos 0) q

-- `Field(min_length=1)`
abbrev pub has_lines {ℓ} : {A : Type ℓ} → List A → Bool
has_lines [] = false
has_lines (_ ∷ _) = true

-- The validators of the request schemas. `opening_balance` and `issue_against_reservation` are
-- called by other services and have none.
unfoldable pub accepts : StockRequest → Bool
accepts (receiving c req) = has_lines req.lines && all (λ l. is_positive l.quantity) req.lines
accepts (issuing wiring c req) = has_lines req.lines && all (λ l. is_positive l.quantity) req.lines
accepts (adjusting c req) = not (eqb_ℤ req.delta (pos 0))
accepts (transferring c req) =
    is_positive req.quantity && not (req.from_warehouse_id == req.to_warehouse_id)
accepts _ = true

-- A stock without rows, versions or logs: the units of each product in each warehouse.
abbrev pub Goods : Type 0
Goods = ℕ → ℕ → ℤ

abbrev pub shift : ℕ → ℕ → ℤ → Goods → Goods
shift p w q g p' w' = g p' w' +ℤ (if (p == p' && w == w') then q else pos 0)

abbrev pub receive_goods : ℕ → List ReceiptLine → Goods → Goods
receive_goods w [] g = g
receive_goods w (l ∷ ls) g = receive_goods w ls (shift l.product_id w l.quantity g)

abbrev pub issue_goods : ℕ → List IssueLine → Goods → Goods
issue_goods w [] g = g
issue_goods w (l ∷ ls) g = issue_goods w ls (shift l.product_id w (pos 0 -ℤ l.quantity) g)

-- What a call does to the goods.
abbrev pub effect : StockRequest → Goods → Goods
effect (receiving c req) g = receive_goods req.warehouse_id req.lines g
effect (opening user req) g = shift req.product_id req.warehouse_id req.quantity g
effect (issuing wiring c req) g = issue_goods req.warehouse_id req.lines g
effect (issuing_held wiring c req) g =
    shift req.product_id req.warehouse_id (pos 0 -ℤ req.quantity) g
effect (adjusting c req) g = shift req.product_id req.warehouse_id req.delta g
effect (transferring c req) g =
    shift req.product_id req.to_warehouse_id req.quantity
      (shift req.product_id req.from_warehouse_id (pos 0 -ℤ req.quantity) g)
