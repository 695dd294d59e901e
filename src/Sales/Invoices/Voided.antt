-- ===== src/Sales/Invoices/Voided.antt =====
-- What voiding a sale leaves.
use inventory_management_sys.Base.{
  ℕ, String, ◌≡◌, refl, ◌∙◌, true, not, ◌==◌, Option, none, some, List, [], ◌∷◌, arith, ap,
}
use inventory_management_sys.Base.Int.{pos}
use inventory_management_sys.Base.Table.{find_row, set_row, find-set_row}
use inventory_management_sys.Base.Result.{Tx, Result, ok, err, Ensures, Triple, Triple-bind}
use inventory_management_sys.Base.Steps.{gets-Triple}
use inventory_management_sys.Stock.Tables.{Db}
use inventory_management_sys.Stock.Soundness.Reads.{raise_if-Triple}
use inventory_management_sys.Finance.{invoice_payment, Books}
use inventory_management_sys.Finance.Documents.{is_empty}
use inventory_management_sys.Finance.Netting.{net}
use inventory_management_sys.Finance.Reversal.{IsNetted}
use inventory_management_sys.Finance.Keeping.{found_as}
use inventory_management_sys.Finance.Balanced.{Cleared, reverse_reference-Cleared}
use inventory_management_sys.Motorcycles.Units.{Showroom}
use inventory_management_sys.Motorcycles.Units.Keeping.{RoomFine}
use inventory_management_sys.Motorcycles.Units.Registry.Single.{Kept, revert_sale-Fine}
use inventory_management_sys.Sales.{inv_voided, is_voidable}
use inventory_management_sys.Sales.Tables.{DeliveryNoteLine, DeliveryNote}
use inventory_management_sys.Sales.Invoices.{Invoice, invoice_key}
use inventory_management_sys.Sales.Invoices.Settling.{
  Trade, with_stock, in_room, on_books, with_invoices, save_invoice,
}
use inventory_management_sys.Sales.Invoices.Voiding.{
  note_key, restock_at, restock_note, restock, is_inv_voided, voided_as, void_invoice,
}
use inventory_management_sys.Sales.Invoices.Paying.{status_of}

module _ (is : List Invoice) where
  abbrev AsBefore : (Books → Type 0) → Trade → Type 0
  AsBefore Q s = Q s.books × Kept (λ is'. is' ≡ is) s.room

  module _ (Q : Books → Type 0) where
    with_stock-keeps :
        {A : Type 0} (m : Tx Db A) → Triple (AsBefore Q) (with_stock m) (λ _. AsBefore Q)
    with_stock-keeps {A} m = record { at = λ s k. go s k (m s.shop.stock) }
      where
        go :
            (s : Trade)
            → AsBefore Q s
            → (r : Result (A × Db)) → Ensures (λ _. AsBefore Q) (with_stock (λ _. r) s)
        go s k (ok (a, db)) = k
        go s k (err e) = tt

    in_room-keeps :
        {A : Type 0} {m : Tx Showroom A}
        → Triple (Kept (λ is'. is' ≡ is)) m (λ _. Kept (λ is'. is' ≡ is))
        → Triple (AsBefore Q) (in_room m) (λ _. AsBefore Q)
    in_room-keeps {A} {m} t = record { at = λ s k. go s k (m s.room) (t.at s.room k.1) }
      where
        go :
            (s : Trade)
            → AsBefore Q s
            → (r : Result (A × Showroom)) → Ensures (λ _. Kept (λ is'. is' ≡ is)) r
            → Ensures (λ _. AsBefore Q) (in_room (λ _. r) s)
        go s k (ok (a, room)) f = (k.0, f)
        go s k (err e) f = tt

    restock_at-keeps :
        (user invoice_id : ℕ) (location : Option ℕ) (lines : List DeliveryNoteLine)
        → Triple (AsBefore Q) (restock_at user invoice_id location lines) (λ _. AsBefore Q)
    restock_at-keeps user invoice_id none lines = record { at = λ s k. k }
    restock_at-keeps user invoice_id (some w) [] = record { at = λ s k. k }
    restock_at-keeps user invoice_id (some w) (l ∷ ls) = with_stock-keeps _

    restock-keeps :
        (user invoice_id : ℕ) (note : Option ℕ)
        → Triple (AsBefore Q) (restock user invoice_id note) (λ _. AsBefore Q)
    unfolding restock
    restock-keeps user invoice_id none = record { at = λ s k. k }
    restock-keeps user invoice_id (some d) =
        gets-Triple (λ s. find_row note_key d s.shop.deliveries) _ λ o. of_note o
      where
        of_note :
            (o : Option DeliveryNote)
            → Triple (AsBefore Q) (restock_note user invoice_id o) (λ _. AsBefore Q)
        of_note none = record { at = λ s k. k }
        of_note (some note) = restock_at-keeps user invoice_id note.location_id note.lines

  on_books-keeps :
      {A : Type 0} {Q R : Books → Type 0} {m : Tx Books A}
      → Triple Q m (λ _. R)
      → Triple (AsBefore Q) (on_books m) (λ _. AsBefore R)
  on_books-keeps {A} {Q} {R} {m} t = record { at = λ s k. go s k (m s.books) (t.at s.books k.0) }
    where
      go :
          (s : Trade)
          → AsBefore Q s
          → (r : Result (A × Books)) → Ensures (λ _. R) r
          → Ensures (λ _. AsBefore R) (on_books (λ _. r) s)
      go s k (ok (a, books)) f = (f, k.1)
      go s k (err e) f = tt

-- The payments of the invoice come to nothing in every account, and it is voided.
abbrev pub IsVoided : ℕ → Trade → Type 0
IsVoided id s =
    ((account : ℕ) → net invoice_payment id account s.books.movements ≡ pos 0)
    × (status_of (find_row invoice_key id s.room.invoices) ≡ some inv_voided)

-- Voiding a sale, where it returns, leaves the payments of its invoice summing to nothing in every
-- account of the ledger, and the invoice voided. The ledger is to be netted and every motorcycle in
-- order.
pub void_invoice-IsVoided :
    (user : ℕ) (reason : String) (i : Invoice) (t : Trade)
    → IsNetted t.books
    → RoomFine t.room
    → find_row invoice_key i.id t.room.invoices ≡ some i
    → Ensures (λ _. IsVoided i.id) (void_invoice user i.id reason t)
unfolding void_invoice
void_invoice-IsVoided user reason i t k f there =
    (raise_if-Triple {P = λ s. s ≡ t} (is_empty reason) _ _ λ a. record {
      at = λ s same. rw same (
          found_as (λ _. IsVoided i.id) (find_row invoice_key i.id t.room.invoices) i _ _ t there
            ((raise_if-Triple {P = AsBefore t.room.invoices IsNetted} (is_inv_voided i.status) _ _
                λ b. raise_if-Triple (not (is_voidable i.status)) _ _ λ c.
                  Triple-bind (restock-keeps t.room.invoices IsNetted user i.id i.delivery_note_id)
                    λ u.
                      Triple-bind
                        (in_room-keeps t.room.invoices IsNetted
                          (revert_sale-Fine (λ is'. is' ≡ t.room.invoices) user i.id))
                        λ v.
                          Triple-bind
                            (on_books-keeps t.room.invoices
                              (reverse_reference-Cleared user invoice_payment i.id i.id refl))
                            λ w.
                              gets-Triple (λ s. s.now)
                                (λ now. save_invoice (voided_as user now reason i))
                                λ now. record { at = λ s h. saved now s h }).at
              t (k, (f, refl))));
    }).at
      t refl
  where
    saved :
        (now : ℕ) (s : Trade)
        → AsBefore t.room.invoices (Cleared invoice_payment i.id) s
        → IsVoided i.id (with_invoices (set_row invoice_key (voided_as user now reason i)) s)
    saved now s ((netted, nothing), (fine, same)) = (
      nothing,
      rw same (
          ap status_of
            (find-set_row invoice_key i.id (voided_as user now reason i) i t.room.invoices there)
          ∙ (let own : (i.id == i.id) ≡ true = ground arith in rw own refl)),
    )
