-- ===== src/Sales/Invoices/Conserved/Undoing.antt =====
-- A void, a return and a step of a credit note keep the tables of Keeping.
use inventory_management_sys.Base.{
  ℕ, String, ◌≡◌, refl, Bool, true, false, not, Option, none, some, List, [], ◌∷◌, All, arith,
  if◌then◌else◌, map, all,
}
use inventory_management_sys.Base.Int.{ℤ, pos, ◌≤ℤ◌}
use inventory_management_sys.Base.Table.{find_row, All-set_row, find_row-All}
use inventory_management_sys.Base.Result.{Ensures, Triple-bind, pure}
use inventory_management_sys.Base.Steps.{gets-Triple, lookup-All}
use inventory_management_sys.Stock.Soundness.Reads.{raise_if-Triple}
use inventory_management_sys.Sales.Invoices.Restocked.{receive-Shelved}
use inventory_management_sys.Finance.{invoice_payment}
use inventory_management_sys.Finance.Documents.{is_empty}
use inventory_management_sys.Finance.Balanced.{netted, reverse_reference-Cleared}
use inventory_management_sys.Motorcycles.Units.Registry.Single.{revert_sale-Fine}
use inventory_management_sys.Sales.{is_voidable}
use inventory_management_sys.Sales.Tables.{DeliveryNoteLine, DeliveryNote}
use inventory_management_sys.Sales.Invoices.Settling.{
  ReturnLine, Return, CreditNote, CreditNoteStatus, Trade,
}
use inventory_management_sys.Sales.Invoices.Voiding.{
  note_key, back_in, by_hand, restock_at, restock_note, restock, is_inv_voided, voided_as,
  void_invoice, ReturnCreate, returned_line, new_return, add_return, create_return,
  cn_can_transition, cn_key, save_credit_note, credited, offset, is_applied, credit_note_transition,
}
use inventory_management_sys.Sales.Invoices.Calls.{is_positive_line}
use inventory_management_sys.Sales.Invoices.Keeping.{
  InvoiceFine, DeliveryFine, CreditFine, TradeFine, credited-Fine, on_books-Fine, in_room-Fine,
  with_stock-Fine,
}
use inventory_management_sys.Sales.Invoices.Conserved.{Keeps, save_invoice-Fine, beside, of_invoice}

back_nonneg :
    (lines : List DeliveryNoteLine)
    → All (λ l. pos 0 ≤ℤ l.qty) lines
    → All (λ l. pos 0 ≤ℤ l.quantity) (map back_in lines)
back_nonneg [] h = tt
back_nonneg (l ∷ ls) (h, hs) = (h, back_nonneg ls hs)

restock_at-Fine :
    (user invoice_id : ℕ) (location : Option ℕ) (lines : List DeliveryNoteLine)
    → All (λ l. pos 0 ≤ℤ l.qty) lines
    → Keeps (restock_at user invoice_id location lines)
restock_at-Fine user invoice_id none lines h = record { at = λ s f. f }
restock_at-Fine user invoice_id (some w) [] h = record { at = λ s f. f }
restock_at-Fine user invoice_id (some w) (l ∷ ls) h =
    with_stock-Fine λ place. receive-Shelved place (by_hand user) _ (back_nonneg (l ∷ ls) h)

restock-Fine : (user invoice_id : ℕ) (note : Option ℕ) → Keeps (restock user invoice_id note)
unfolding restock
restock-Fine user invoice_id none = record { at = λ s f. f }
restock-Fine user invoice_id (some d) = record {
  at = λ s f. go s f (find_row note_key d s.shop.deliveries) refl;
}
  where
    go :
        (s : Trade)
        → TradeFine s
        → (o : Option DeliveryNote) → find_row note_key d s.shop.deliveries ≡ o
        → Ensures (λ _. TradeFine) (restock_note user invoice_id o s)
    go s f none e = f
    go s f (some note) e =
        (restock_at-Fine user invoice_id note.location_id note.lines
            (find_row-All note_key DeliveryFine d note s.shop.deliveries e f.delivered)).at
          s f

pub void_invoice-Fine :
    (user invoice_id : ℕ) (reason : String) → Keeps (void_invoice user invoice_id reason)
unfolding void_invoice
void_invoice-Fine user invoice_id reason = raise_if-Triple (is_empty reason) _ _ λ a.
    of_invoice invoice_id λ i f. raise_if-Triple (is_inv_voided i.status) _ _ λ b.
      raise_if-Triple (not (is_voidable i.status)) _ _ λ c.
        Triple-bind (restock-Fine user i.id i.delivery_note_id) λ u.
          Triple-bind (in_room-Fine (revert_sale-Fine (All InvoiceFine) user i.id)) λ v.
            Triple-bind
              (on_books-Fine (
                netted invoice_payment i.id
                  (reverse_reference-Cleared user invoice_payment i.id i.id refl)))
              λ w.
                gets-Triple (λ s. s.now) _
                  λ now. save_invoice-Fine (voided_as user now reason i) (record {
                    paid_nonneg = f.paid_nonneg;
                    paid_most = f.paid_most;
                    credit_nonneg = f.credit_nonneg;
                    rate_nonneg = f.rate_nonneg;
                  })

returned_nonneg :
    (lines : List ReturnLine)
    → all is_positive_line lines ≡ true
    → All (λ l. pos 0 ≤ℤ l.quantity) (map returned_line lines)
returned_nonneg [] e = tt
returned_nonneg (l ∷ ls) e = (ground arith, returned_nonneg ls (ground arith))

pub create_return-Fine :
    (user : ℕ) (req : ReturnCreate)
    → all is_positive_line req.lines ≡ true
    → Keeps (create_return user req)
unfolding create_return
create_return-Fine user req e = of_invoice req.invoice_id λ i f.
    gets-Triple (λ s. s.next_id) _
      λ id. Triple-bind (add_return-Fine (new_return id user i.branch_id req)) λ u.
        with_stock-Fine (λ place.
          receive-Shelved place (by_hand user)
            (record {
              warehouse_id = req.location_id;
              lines = map returned_line req.lines;
              reference_type = some "sales_return";
              reference_id = some id;
            })
            (returned_nonneg req.lines e))
  where
    add_return-Fine : (r : Return) → Keeps (add_return r)
    add_return-Fine r = record { at = λ s f. beside s _ f refl refl refl refl }

pub credit_note_transition-Fine :
    (cn_id : ℕ) (new : CreditNoteStatus) → Keeps (credit_note_transition cn_id new)
unfolding credit_note_transition
credit_note_transition-Fine cn_id new =
    lookup-All cn_key cn_id (λ s. s.credit_notes) CreditFine _ _ (λ s f. f.credits)
      λ cn h. raise_if-Triple (not (cn_can_transition cn.status new)) _ _ λ a.
        gets-Triple (λ s. s.now) _
          λ now.
            Triple-bind
              (save_credit_note-Fine
                (record cn {
                  status = new;
                  applied_at = if is_applied new then some now else cn.applied_at;
                })
                h)
              λ u. when_applied (is_applied new) cn h
  where
    save_credit_note-Fine : (cn : CreditNote) → CreditFine cn → Keeps (save_credit_note cn)
    save_credit_note-Fine cn h = record {
      at = λ s f. record {
        place = f.place;
        shelf = f.shelf;
        netted = f.netted;
        room_fine = f.room_fine;
        delivered = f.delivered;
        credits = All-set_row cn_key CreditFine cn s.credit_notes h f.credits;
      };
    }

    offset-Fine : (o : Option ℕ) (amount : ℤ) → pos 0 ≤ℤ amount → Keeps (offset o amount)
    offset-Fine none amount h = record { at = λ s f. f }
    offset-Fine (some invoice_id) amount h =
        of_invoice invoice_id
          λ i f. save_invoice-Fine (credited amount i) (credited-Fine amount i f h)

    when_applied :
        (b : Bool) (cn : CreditNote)
        → CreditFine cn
        → Keeps (if b then offset cn.invoice_id cn.grand_total else pure tt)
    when_applied true cn h = offset-Fine cn.invoice_id cn.grand_total h
    when_applied false cn h = record { at = λ s f. f }
