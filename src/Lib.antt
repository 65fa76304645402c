-- ===== src/Lib.antt =====
-- RetailIQ: a model of the server's core and what is proved of it.
--
-- The server (app/) is a Flask application over one SQL database. A request handler or a service
-- function reads rows, decides, writes rows and commits, or raises and is rolled back. The model takes
-- the tables that a part uses as a record of lists, `Db`, and a handler as a function from a request
-- and a database to a database with a reply, or as a call of the monad of Base/Exec, which keeps the
-- database after a raise as well.
--
--   Base: tests, lists, integers, rows with a key, the monad and Python's rounding.
--   Transactions: app/transactions/services.py. Sale has process_single_transaction, with its stock,
--     credit and loyalty parts, and process_batch_transactions; Gst has the GST part of a sale; Refund
--     has process_return_transaction. Stock, Frame, Sells, Credit, Tax, Batch and Returns are about them.
--   Finance: app/finance. Ledger (ledger.py) has the double-entry postings; Loan (loan_engine.py),
--     Treasury (treasury_manager.py) and Insurance (insurance_engine.py) post through it; Credit
--     (credit_scoring.py) is the merchant's score.
--   Suppliers: the purchase orders of app/suppliers/routes.py and the receipt of goods.
--   Loyalty: app/loyalty/routes.py. Tiers has programs and tiers, Accounts has points and the repayment
--     of customer credit.
--   Gst: app/gst/utils.py.
--   Auth: app/auth. Codes (utils.py) has one-time codes, reset and refresh tokens over the interface
--     KeyStore of a key-value store; Accounts and Sessions (routes.py, decorators.py) have the handlers,
--     which answer with a Reply; Requests is one function of a request, the environment that it meets
--     (Env) an argument. Frame and SingleUse say what a request writes to the database and to the
--     store.
--   Inventory: app/inventory. Products (routes.py, services.py) has the catalogue, its prices and alerts,
--     Stock (routes.py) deliveries and stock counts; Requests is one function of a request.
--   Decisions: app/decisions. Context (engine.py) has the context of a store, over the products of
--     Inventory, and the actions; Rules (rules.py, helpers.py) single rules and filled histories;
--     Ranking (engine.py) the deduplication and its order.
--   Webhooks: app/utils/webhooks.py (Queue) and app/tasks/webhook_tasks.py (Delivery). What a request to
--     the receiver meets is an argument, and Attempts runs the task again as the task queue does, with
--     one retry more each time, for a list of attempts.
--   Pricing: app/pricing. Engine (engine.py) suggests prices for the products of Inventory, Routes
--     (routes.py) applies and dismisses suggestions and sets rules.
--   TaxEngine: app/tax_engine/engine.py, the calculators by country, over the fractions and rows of
--     Transactions.
--   Marketplace: app/marketplace. Orders (services.py) has orders, with loans of Finance, and requests for
--     quotations; Tracking (logistics.py) the events of a shipment from a seed.
--   Tests: runs on concrete data.
--
-- A constraint of a table is kept where a handler can break it: the customer of a sale is a row, a
-- customer has one loyalty account in all stores, a tier's name is unique in its program.
--
-- Function names are those of the code, without a leading underscore; process_batch is
-- process_batch_transactions.
--
-- Numbers. Amounts are integers of hundredths, stock and quantities of thousandths. A product of two is
-- kept exact, in hundred-thousandths; what a column of the database keeps of it is the parameter
-- `stored` of the sales. Python floats and Decimals are taken as exact, and a quotient is exact until
-- the code rounds it (half to even). A UUID is a number; the ids that a call draws are arguments of it.
-- No definition runs on fuel: every loop goes over a list.
--
-- Left out: timestamps, notes, descriptions and the JSON of replies; queued tasks and webhooks; the
-- checks of the session and of the role before a handler; concurrent sessions, whose row locks the
-- model replaces by one session at a time. An insurance premium is a whole number of paise. A loan
-- without an approved amount fails at its disbursement before the posting, and the missing amount that
-- the session holds until it is rolled back is not represented. A GSTIN is ASCII. Rate limits, the
-- audit log and the waiting time between two codes are left out of Auth, and the signature of an access
-- token: a token is what it says. The other parts of app/ (reports, forecasts, messaging, vision) are not modelled.
pub mod Base
pub mod Finance
pub mod Suppliers
pub mod Loyalty
pub mod Gst
pub mod Transactions
pub mod Tests
pub mod Auth
pub mod Inventory
pub mod Decisions
pub mod Webhooks
pub mod Pricing
pub mod TaxEngine
pub mod Marketplace
