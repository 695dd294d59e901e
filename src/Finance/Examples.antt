-- ===== src/Finance/Examples.antt =====
-- A branch till and a bank account: a handover, a transfer and an expense, and taking them back.
use inventory_management_sys.Base.{◌≡◌, refl, none, some, List, [], ◌∷◌, true}
use inventory_management_sys.Base.Int.{pos, ◌+ℤ◌, ◌-ℤ◌}
use inventory_management_sys.Base.Table.{find_row, set_row}
use inventory_management_sys.Base.Result.{Ensures}
use inventory_management_sys.Finance.{
  transfer, FinancialAccount, Books, require_account, post_movement, reverse_reference,
  reverse_each, reverse_movement, unreversed_for_reference, live_for, is_reversed,
}
use inventory_management_sys.Finance.Documents.{
  TransferCreate, create_expense, create_transfer, reverse_transfer, void_expense,
}
use inventory_management_sys.Finance.Balances.{balance, moved, create_transfer-moves}
use inventory_management_sys.Finance.Restored.{reverse_transfer-takes}
use inventory_management_sys.Finance.Handing.{
  handover_key, create_handover, reverse_handover, confirm_handover, require_handover,
  post_received,
}
use inventory_management_sys.Finance.Confirming.{returns, may_confirm, confirm_handover-returns}
use inventory_management_sys.Finance.Calls.{
  MoneyCall, spending, voiding, transferring, handing_over, reversing_handover, account_for,
  account_all,
}
use inventory_management_sys.Finance.Netting.{net, net_live, Below}
use inventory_management_sys.Finance.Reversal.{IsNetted}
use inventory_management_sys.Finance.Balanced.{Undone, account_all-Netted, account_for-Undone}

abbrev till : FinancialAccount
till = record { id = 1; branch_id = some 1; opening_balance = pos 0; is_active = true }

abbrev bank : FinancialAccount
bank = record { id = 2; branch_id = none; opening_balance = pos 0; is_active = true }

abbrev opened : Books
opened = record {
  accounts = till ∷ bank ∷ [];
  movements = [];
  expenses = [];
  transfers = [];
  handovers = [];
  categories = [];
  mappings = [];
  next_id = 1;
  now = 9;
}

opened-IsNetted : IsNetted opened
unfolding net net_live Below
opened-IsNetted = record { below = tt; stands = λ kind id account. refl }

abbrev spent_and_moved : List MoneyCall
spent_and_moved =
    spending 1 (record { account_id = 1; branch_id = none; amount = pos 50000; category_id = none })
      none
    ∷ transferring 1 (record { from_account_id = 1; to_account_id = 2; amount = pos 80000 }) none
    ∷ []

abbrev used : Books
used = account_all spent_and_moved opened

account_all-Netted_example : IsNetted used
account_all-Netted_example = account_all-Netted spent_and_moved opened opened-IsNetted

abbrev void_it : MoneyCall
void_it = voiding 1 1 "entered twice" none

account_for-Undone_example : Ensures (λ _. Undone void_it) (account_for void_it used)
account_for-Undone_example =
    account_for-Undone void_it used (account_all-Netted spent_and_moved opened opened-IsNetted)

-- A handover that is reversed while it awaits its confirmation.
abbrev handed_and_reversed : List MoneyCall
handed_and_reversed =
    handing_over 1
      (record {
        from_account_id = 1;
        to_account_id = 2;
        branch_id = none;
        amount = pos 30000;
        received_by_name = "Ann";
      })
      none
    ∷ reversing_handover 1 1 "wrong branch" none
    ∷ []

abbrev taken_back_early : Books
taken_back_early = account_all handed_and_reversed opened

confirm_handover-returns_example :
    returns (confirm_handover 1 1 (pos 30000) "" none taken_back_early)
    ≡ may_confirm
        (pos 30000)
        ""
        none
        taken_back_early
        (find_row handover_key 1 taken_back_early.handovers)
confirm_handover-returns_example = confirm_handover-returns 1 1 (pos 30000) "" none taken_back_early

-- It is confirmed after all.
confirmed_after_all : returns (confirm_handover 1 1 (pos 30000) "" none taken_back_early) ≡ true
unfolding account_all account_for create_handover reverse_handover confirm_handover require_handover
    require_account post_movement reverse_reference reverse_each reverse_movement
    unreversed_for_reference live_for is_reversed post_received find_row set_row
confirmed_after_all = refl

-- Money from the till to the bank.
abbrev to_bank : TransferCreate
to_bank = record { from_account_id = 1; to_account_id = 2; amount = pos 20000 }

create_transfer-moves_example :
    Ensures
      (λ _ after. balance bank after.movements ≡ balance bank used.movements +ℤ moved bank to_bank)
      (create_transfer 1 to_bank none used)
create_transfer-moves_example = create_transfer-moves bank 1 to_bank none used

reverse_transfer-takes_example :
    Ensures
      (λ _ after.
        balance till after.movements
        ≡ balance till used.movements -ℤ net transfer 3 1 used.movements)
      (reverse_transfer 1 3 "wrong account" none used)
reverse_transfer-takes_example =
    reverse_transfer-takes till 1 3 "wrong account" none used
      (account_all-Netted spent_and_moved opened opened-IsNetted)

-- Both return.
taken_back_ok : returns (reverse_transfer 1 3 "wrong account" none used) ≡ true
unfolding account_all account_for create_expense create_transfer reverse_transfer require_account
    post_movement reverse_reference reverse_each reverse_movement unreversed_for_reference live_for
    is_reversed find_row set_row
taken_back_ok = refl

voided_ok : returns (account_for void_it used) ≡ true
unfolding account_all account_for create_expense create_transfer void_expense require_account
    post_movement reverse_reference reverse_each reverse_movement unreversed_for_reference live_for
    is_reversed find_row set_row
voided_ok = refl
