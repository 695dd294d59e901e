-- ===== src/Lib.antt =====
-- A model of the stock core of the inventory management system (backend/app), with the proofs
-- that its operations keep the books.
--
-- The program is a FastAPI service over PostgreSQL. A request opens one transaction (`get_db` of
-- backend/app/api/v1/deps.py), a service changes rows, and the transaction commits when the
-- service returns and is rolled back when it raises. Row locks (`SELECT ... FOR UPDATE`)
-- serialise the calls that touch the same inventory row, so the model runs calls one after
-- another.
--
-- Base: shared names, integers, dicts as lists of items (Base/Dict), and the transaction monad
-- (Base/Result): a function from the tables to a value and new tables, or an `AppError` of
-- core/exceptions.py, beside which no tables come back.
--
-- Stock: the warehouse. Stock/Tables has the rows of models/inventory.py and of the tables beside
-- them; Stock/Repository is repositories/inventory_repo.py; Stock/Reservations is
-- repositories/reservation_repo.py; Stock/Context and Stock/Service are
-- services/inventory_service.py, one function for each method and its helpers (`receive`,
-- `opening_balance`, `adjust` in Service/Inbound, `issue` and the low-stock alert in
-- Service/Issue, `issue_against_reservation` in Service/Held, `transfer` in Service/Relocate);
-- Stock/Requests has the validators of schemas/inventory.py and the abstract stock; Stock/Serving
-- has the transaction around a call. A row object that Python holds and mutates is read by `find`
-- and written back by `put`, which are keyed by the unique (product, warehouse). Stock/Ledger
-- says what the rows, the movement ledger and the holds add up to, Stock/Invariant states the
-- invariant, and Stock/Soundness, Stock/Refinement, Stock/Availability, Stock/Drawing and
-- Stock/Reserving have the proofs.
--
-- Procurement: purchase orders. Procurement/States is procurement/domain/states.py, with the
-- workflow as a step relation in States/Workflow; Procurement/Receiving is
-- procurement/domain/receiving.py; Procurement/Tables has the rows, and Procurement/Service is
-- `_apply_action` and `receive` of procurement/service.py (Service/Receipt), which writes the
-- stock tables too. Service/Calls has sequences of calls, each in its own transaction, and the
-- proofs.
--
-- OrderRequests: requests for stock and transfers between locations. OrderRequests is
-- order_requests/domain/status.py, with the workflow as a step relation in
-- OrderRequests/Outcomes; OrderRequests/Tables has the rows of models/order_request.py beside the
-- stock tables; OrderRequests/Repository is order_requests/repository.py: what a line holds,
-- gives back, issues and credits; OrderRequests/Service is order_requests/service.py (`create`,
-- `submit` and `reject`; `approve` and `cancel` in Service/Approving, `issue` in Service/Issuing,
-- `receive` and `complete` in Service/Receiving), and Service/Calls has sequences of calls, each
-- in its own transaction. A header object that Python holds and mutates is read by `require` and
-- written back by `save_header` at the end of a call. Service/Keeping has the invariant of the
-- tables, Service/Statuses the statuses through any calls, Service/Leftover what a receipt leaves
-- alone, and OrderRequests/Stock what the operations on lines do to the stock.
--
-- Sales: Sales is sales/domain/status.py; Sales/Orders is the order side of sales/service.py and
-- of sales/repository.py, over the stock tables: confirming and cancelling an order, and
-- `create_delivery` in Orders/Delivering. Sales/Tables has the rows, Orders/Shelf what these do
-- to the stock, and Orders/Keeping the invariant of the tables. Sales/Invoices has what of an
-- invoice is settled, Invoices/Settling `record_payment` over all the tables of the service,
-- Invoices/Voiding `void_invoice`, `create_return` and `credit_note_transition`, Invoices/Bikes
-- the sales of motorcycles, and Invoices/Calls sequences of these and of the calls on orders,
-- motorcycles and money. Invoices/Keeping, Conserved and Histories have the invariant of these
-- tables, Reconciled, Paying and Voided single calls. The service is the one that the routes
-- build, with the inventory, finance and motorcycle services.
--
-- Motorcycles: Motorcycles is motorcycles/domain/lifecycle.py; Motorcycles/Units has the rows of
-- models/motorcycle.py and the editing of units in motorcycles/service.py, Units/Selling what
-- moves a unit between its statuses and branches, Units/Calls sequences of calls, and
-- Units/Keeping and Units/Registry what these keep. A rate of exchange is in millionths, and an
-- amount in the currency of billing is rounded to hundredths as in sales/domain/pricing.py.
--
-- Finance: the ledger of account movements of finance/service.py and finance/repository.py,
-- newest first, with `post_movement`, `reverse_movement` and `reverse_reference`.
-- Finance/Documents has expenses and transfers, Finance/Handing the cash handovers,
-- Finance/Takings the payments of invoices, and Finance/Calls sequences of calls. A drawn id is
-- the next number, where the database draws a random one: the order of ids is that of creation.
-- The audit rows and the locks on the two accounts of a transfer are left out. Finance/Netting
-- and Finance/Reversal are about what a document comes to, Finance/Confirming about when a
-- confirmation goes through, and Finance/Balances, Finance/Restored and Finance/Refunded about
-- the balances of accounts.
--
-- Assembly is assembly/domain/planner.py, Dispatch is dispatch/domain/status.py, CustomerDelivery
-- is customer_delivery/domain/status.py, Handovers is customer_handovers/domain/status.py,
-- Issuance is issuance/domain/status.py and BikeIssues is bike_issues/domain/status.py: the pure
-- rules of those parts, whose services are not modelled. OrderRequests, Dispatch,
-- CustomerDelivery, Issuance and Sales compare quantities with a tolerance below one
-- ten-thousandth; the model has them on the grid of ten-thousandths, where the comparison is
-- exact.
--
-- Quantities are `Decimal`s of NUMERIC(18,4) columns, modelled as the integer number of their
-- ten-thousandths: the operations add, subtract and compare them, which is exact, and one
-- multiplies by a rate. The bound of 18 digits is not modelled. Ids are numbers that are only
-- compared. The model is of one tenant, since row-level security hides the rows of the others.
-- Loops are structural recursion, so no fuel is used. The free-form parts of audit entries and
-- error messages are left out.
--
-- Not modelled: authentication, HTTP routing, PDF, mail and chat output, imports, reports and
-- forecasts, the creation and editing of purchase orders, quotations, the prices of sales
-- documents with the invoicing of orders and new credit notes that need them, the checkout of the
-- point of sale, and the services beside those named above.
pub mod Base
pub mod Stock
pub mod Procurement
pub mod Assembly
pub mod Motorcycles
pub mod OrderRequests
pub mod Dispatch
pub mod CustomerDelivery
pub mod Sales
pub mod Handovers
pub mod Issuance
pub mod BikeIssues
pub mod Finance
