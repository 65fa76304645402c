-- ===== src/Tests/Transactions.antt =====
-- A store that sells tea.
use retail_iq.Base.{◌≡◌, refl, ◌*◌, ℕ, false, none, some, List, [], ◌∷◌}
use retail_iq.Base.Int.{◌+ℤ◌, ◌-ℤ◌, ◌*ℤ◌, ℤ, pos}
use retail_iq.Transactions.Models.{
  Product, PaymentMode, Transaction, TransactionItem, Db, SaleRequest, ReturnItem,
}
use retail_iq.Transactions.Sale.{
  sell_on_credit, NewIds, process_single_transaction, BatchReport, process_batch,
}
use retail_iq.Transactions.Refund.{process_return_transaction}
use retail_iq.Transactions.Credit.{Charges, sell_on_credit-Charges}
use retail_iq.Base.Round.{round_div, half_even}
use retail_iq.Transactions.Gst.{cents, taxable_of, half_tax_of}
use retail_iq.Transactions.Tax.{taxable_of-half_tax_of}
use retail_iq.Transactions.Sells.{Sells, process_single_transaction-Sells}
use retail_iq.Transactions.Batch.{IsUnique, Counts, process_batch-Counts}
use retail_iq.Transactions.Returns.{Returns, process_return_transaction-Returns}

abbrev stored : ℕ → ℤ → ℤ
stored n x = x

abbrev tea : Product
tea = record {
  product_id = 10;
  store_id = 1;
  category_id = none;
  cost_price = some 4000;
  selling_price = some 5000;
  current_stock = some (pos 8000);
  hsn_code = none;
  gst_category = none;
}

abbrev bought : TransactionItem
bought = record {
  transaction_id = 70;
  product_id = 10;
  quantity = pos 2000;
  selling_price = 5000;
  original_price = 5000;
  discount_amount = pos 0;
  cost_price_at_time = 4000;
}

abbrev first_sale : Transaction
first_sale = record {
  transaction_id = 70;
  store_id = 1;
  customer_id = none;
  payment_mode = PaymentMode.cash;
  is_return = false;
  original_transaction_id = none;
  total_amount = pos 10000000;
}

abbrev shop : Db
shop = record {
  products = tea ∷ [];
  transactions = first_sale ∷ [];
  items = bought ∷ [];
  ledgers = [];
  credit_transactions = [];
  programs = [];
  customers = 6 ∷ [];
  accounts = [];
  loyalty_transactions = [];
  gst_configs = [];
  hsn_master = [];
  categories = [];
  gst_transactions = [];
}

abbrev sale : ℕ → SaleRequest
sale i = record {
  transaction_id = i;
  payment_mode = PaymentMode.upi;
  customer_id = none;
  line_items =
      record { product_id = 10; quantity = 3000; selling_price = 4800; discount_amount = pos 100 }
      ∷ [];
}

abbrev new : NewIds
new = record { ledger = 90; account = 91 }

process_single_transaction-Sells_example :
    Sells 1 false (sale 71) shop (process_single_transaction stored new false 1 (sale 71) shop)
process_single_transaction-Sells_example =
    process_single_transaction-Sells stored new false 1 (sale 71) shop

abbrev no_report : BatchReport
no_report = record { accepted = 0; rejected = 0; errors = [] }

abbrev three : List (NewIds × SaleRequest)
three = (new, sale 71) ∷ (new, sale 70) ∷ (new, sale 71) ∷ []

process_batch-Counts_example :
    let q = process_batch stored 1 three no_report shop in IsUnique q.1 × Counts 3 no_report shop q
process_batch-Counts_example = process_batch-Counts stored 1 three no_report shop (tt, tt)

abbrev back : List ReturnItem
back = record { product_id = 10; quantity_returned = 2000 } ∷ []

process_return_transaction-Returns_example :
    Returns 70 72 back 1 shop (process_return_transaction 70 72 back 1 shop)
process_return_transaction-Returns_example = process_return_transaction-Returns 70 72 back 1 shop

abbrev with_ledger : Db
with_ledger = record shop {
  ledgers =
      record {
        id = 60;
        customer_id = 6;
        store_id = 1;
        balance = pos 5000;
        credit_limit = pos 90000;
      }
      ∷ [];
}

sell_on_credit-Charges_example :
    Charges stored 61 6 1 71
      (pos 14300000)
      with_ledger
      (sell_on_credit stored 61 6 1 71 (pos 14300000) with_ledger)
sell_on_credit-Charges_example = sell_on_credit-Charges stored 61 6 1 71 (pos 14300000) with_ledger

-- 118.00 at 18%.
taxable_of-half_tax_of_example :
    ((half_tax_of (pos 11800000) 1800).over *ℤ pos 10000
      ≡ (taxable_of (pos 11800000) 1800).over *ℤ pos 1800)
    × ((half_tax_of (pos 11800000) 1800).under ≡ 2 * (taxable_of (pos 11800000) 1800).under)
    × ((taxable_of (pos 11800000) 1800).over +ℤ (half_tax_of (pos 11800000) 1800).over
        ≡ pos 11800000 *ℤ pos (taxable_of (pos 11800000) 1800).under)
taxable_of-half_tax_of_example = taxable_of-half_tax_of (pos 11800000) 1800

the_taxable_value : cents (taxable_of (pos 11800000) 1800) ≡ pos 10000
unfolding cents taxable_of ◌*ℤ◌ round_div half_even
the_taxable_value = refl

the_tax : cents (half_tax_of (pos 11800000) 1800) ≡ pos 900
unfolding cents half_tax_of taxable_of ◌*ℤ◌ ◌-ℤ◌ ◌+ℤ◌ round_div half_even
the_tax = refl
