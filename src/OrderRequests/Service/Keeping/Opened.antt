-- ===== src/OrderRequests/Service/Keeping/Opened.antt =====
-- The lines of a request as an issue opens them, and as it leaves a line.
use inventory_management_sys.Base.{
  ℕ, ◌≡◌, refl, false, not, inl, inr, ◌⊎◌, Bool-cases, Option, none, some, List, All-map, arith,
}
use inventory_management_sys.Base.Int.{ℤ, pos, ◌+ℤ◌, ◌≤ℤ◌, ltb_ℤ, min_ℤ, max_ℤ, int_laws}
use inventory_management_sys.Base.Dict.{Dict, get}
use inventory_management_sys.Base.Result.{
  Tx, Ensures, Ensures-both, Ensures-any, Ensures-bind, Triple,
}
use inventory_management_sys.Stock.Tables.{Db, Inventory, StockMovement}
use inventory_management_sys.Stock.Reservations.{ref_type, find_hold}
use inventory_management_sys.Stock.Service.Held.{consume_own}
use inventory_management_sys.OrderRequests.{RequestStatus, issued, can_transition}
use inventory_management_sys.OrderRequests.Tables.{RequestLine}
use inventory_management_sys.OrderRequests.Repository.{
  LineResult, refused, updated, take_units, take_from,
}
use inventory_management_sys.OrderRequests.Service.Lines.{or_other}
use inventory_management_sys.OrderRequests.Service.Issuing.{owed, issue_qty}
use inventory_management_sys.Stock.Places.{Place}
use inventory_management_sys.OrderRequests.Stock.Taking.{Kept}
use inventory_management_sys.OrderRequests.Service.Keeping.{
  early, under_way, stage, LineFine, LinesFine,
}

-- A line that is taken comes back with so many more units issued, and is else as it was.
abbrev pub Taken : RequestLine → ℤ → LineResult → Type 0
Taken line qty (refused message) = Unit
Taken line qty (updated line') = line' ≡ record line { issued_qty = line.issued_qty +ℤ qty }

module _ (line : RequestLine) (qty : ℤ) where
  take_units-Taken :
      (mv : StockMovement) (user : ℕ) (inv : Inventory) (db : Db)
      → Ensures (λ r _. Taken line qty r) (take_units mv user line qty inv db)
  unfolding take_units
  take_units-Taken mv user inv db =
      Ensures-bind {Q = λ _ _. Unit}
        (consume_own qty user inv (find_hold line.id ref_type db.reservations) db) _
        (Ensures-any (consume_own qty user inv (find_hold line.id ref_type db.reservations) db))
        λ inv'. record { at = λ db' t. refl }

  pub take_from-Taken :
      (mv : StockMovement) (user : ℕ) (o : Option Inventory) (db : Db)
      → Ensures (λ r _. Taken line qty r) (take_from mv user line qty o db)
  take_from-Taken mv user none db = tt
  take_from-Taken mv user (some inv) db = elim (Bool-cases (ltb_ℤ inv.qty_on_hand qty)) [
    | inl short ↦ rw short tt
    | inr enough ↦ rw enough (take_units-Taken mv user inv db)
  ]

  pub both_keep :
      {m : Tx Db LineResult} {place : Place}
      → Triple (Kept place) m (λ _. Kept place)
      → ((db : Db) → Ensures (λ r _. Taken line qty r) (m db))
      → Triple (Kept place) m (λ r db. Kept place db × Taken line qty r)
  both_keep {m} t e = record {
    at = λ db k. Ensures-both (m db) (λ r db' k' q. (k', q)) (t.at db k) (e db);
  }

issuable-stage :
    (s : RequestStatus)
    → not (can_transition s issued) ≡ false
    → (stage s ≡ early) ⊎ (stage s ≡ under_way)
unfolding stage can_transition
issuable-stage s e = ground arith

module _ (place : Place) (branch : ℕ) where
  -- A line of which nothing is issued may have some issued.
  start-Fine :
      (line : RequestLine) → LineFine place branch early line → LineFine place branch under_way line
  start-Fine line f = record {
    at_product = f.at_product;
    at_branch = f.at_branch;
    requested_nonneg = f.requested_nonneg;
    approved_nonneg = f.approved_nonneg;
    approved_within = f.approved_within;
    issued_nonneg = f.issued_nonneg;
    issued_within = let h = f.issued_within in let k = f.approved_nonneg in omega (int_laws, h, k);
    is_settled = f.is_settled;
  }

  pub opened-Fine :
      (s : RequestStatus) (lines : List RequestLine)
      → not (can_transition s issued) ≡ false
      → LinesFine place branch (stage s) lines
      → LinesFine place branch under_way lines
  opened-Fine s lines e fs = elim (issuable-stage s e) [
    | inl is_early ↦
        All-map (LineFine place branch early) (LineFine place branch under_way) start-Fine lines
          (rw is_early at fs)
    | inr going ↦ rw going at fs
  ]

  pub at_most_owed :
      (wanted : Dict ℤ) (line : RequestLine)
      → LineFine place branch under_way line
      → issue_qty wanted line ≤ℤ owed line
  at_most_owed wanted line f =
      let h = f.issued_within in
      bound (or_other (get line.id wanted) (owed line)) (owed line) (grind (int_laws, h))
    where
      bound : (a b : ℤ) → pos 0 ≤ℤ b → max_ℤ (pos 0) (min_ℤ a b) ≤ℤ b
      bound a b h = ground arith

  -- More is issued, at most what is owed.
  pub more-Fine :
      (line : RequestLine) (qty : ℤ)
      → pos 0 ≤ℤ qty
      → qty ≤ℤ owed line
      → LineFine place branch under_way line
      → LineFine place branch under_way (record line { issued_qty = line.issued_qty +ℤ qty })
  more-Fine line qty h le f = record {
    at_product = f.at_product;
    at_branch = f.at_branch;
    requested_nonneg = f.requested_nonneg;
    approved_nonneg = f.approved_nonneg;
    approved_within = f.approved_within;
    issued_nonneg = let k = f.issued_nonneg in grind (int_laws, k);
    issued_within = let k = f.issued_within in grind (int_laws, k);
    is_settled = f.is_settled;
  }
