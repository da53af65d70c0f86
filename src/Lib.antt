-- ===== src/Lib.antt =====
-- A model of the money core of the savings society's backend, and its proofs.
--
-- The program is a service over one database: members have savings accounts, each movement of an
-- account is a transaction row with a journal entry in the general ledger, and loans are backed by
-- guarantors, whose savings are held. All amounts move through the ledger service; repayments and
-- recoveries call it from their own database transactions.
--
--   Store            the rows (src/prisma/schema.prisma), with the columns that the code uses
--   Ledger           src/modules/accounting/ledger.service.ts: Ledger/Balance is
--                    applyBalanceChange, Ledger/Gl the GL codes and the GL-only legs, Ledger/Entry
--                    postEntry, Ledger/Transfer postInternalTransfer, Ledger/Reversal
--                    reverseTransaction; Ledger/Books and Ledger/Replay hold proofs about them
--   Repayment        src/modules/loans/loan-repayment.service.ts: Waterfall is the split in
--                    processRepayment, Installments is applyInstallmentAllocation, Legs the rows
--                    and postings of its parts, Process the rest; Laws, Status and Fresh are proofs
--   LoanStatus       src/core/state-machine.ts and
--                    src/modules/loans/guards/loan-state-transition.guard.ts
--   ApprovalChain    src/modules/fraud/approval-chain.service.ts
--   Guarantors       src/modules/loans/guarantor-validation.service.ts
--   Recovery         src/modules/loans/loan-recovery.service.ts: Allocation is allocateRecovery
--   Arrears          src/modules/financial/financial.service.ts: applyOverdueInstallmentsAndArrears and
--                    classifyStaging; Postings, Daily and
--                    Returns hold proofs; Interest is computeScheduleBasedDailyInterest
--   AuditChain       src/modules/audit/audit.chain.service.ts: Canonical is canonicalJson, Hashing what is
--                    hashed and signed, AuditChain itself persistEvent and verifyTenantChain; Laws,
--                    Written and Tampering hold proofs about them
--   Cache            src/common/services/redis.service.ts: values with a lifetime, and locks
--   GuarantorResponse
--                    src/loans/guarantor-response.service.ts: Decision is applyDecision; Answered,
--                    Once and Gate hold proofs
--   DisbursementGate src/loans/disbursement-gate.service.ts
--   Idempotency      src/common/services/idempotency.service.ts, over Cache; Register is its contract
--   Pin              src/modules/pin/pin.service.ts, over Cache; Pin/Code is generateCode
--   Withdrawals      src/modules/mpesa/withdrawal-reconciliation.service.ts and, in Provider,
--                    applyMwaloniStatus of src/modules/mpesa/mpesa.service.ts: Manual holds the
--                    decisions by hand, Reconcile the steps of a run, Run reconcileTransaction and
--                    Steps how its transactions are committed; Settled, Answers, Moves and Paid are
--                    proofs about rows that are paid out, Stuck and Interrupted about runs that
--                    stop, Exhausted about the last attempt. Disburse is executeB2cDisbursement
--                    and Payout the request that it ends in; Benign, Answered, SentOnce, Claims,
--                    Created, Payouts, Once and Sends are proofs about what is sent. The field
--                    sent of the store lists the orders of the requests that left for the provider
--   Base             numbers, keys, tables, decimals and the monad of transaction bodies
--   Scenarios        a small society on which the theorems are applied
--
-- How the code becomes a model. A method that runs in a database transaction is a function in
-- the monad M of Base/Results: it takes the store and gives a value with the new store, or an error,
-- and an error rolls back what was written. A table is the list of its rows in the order in which
-- its queries want them, findFirst is the first row that passes the test of its where clause, and
-- updateMany rewrites the rows that pass and counts them. Money is a whole number of
-- ten-thousandths of a shilling, the precision of the columns, but for LoanRepayment.amountPaid,
-- which keeps two places. Ids of new rows, random tokens and
-- the time are arguments. A null is none. Texts that are only shown (descriptions, notes), audit
-- rows, logs and notifications are left out. Serializable isolation is taken as given: bodies run
-- one after the other. That is an assumption also where the code does not ask for it:
-- initApprovalChain runs outside a transaction and signOff at the default isolation. The states
-- of an AuditEvent are read back as they were written, which the column type jsonb keeps for the
-- JSON values that the queue hands over. The client of the payment provider is a parameter: its
-- answer is a reply, an exception after its request or an exception before it. Statements on a repeated or a later call are about the order of the bodies.
--
-- Parameters. A Redis client with its documented laws is the parameter of Cache and what uses it;
-- Scenarios/Redis has one that keeps them. The record Runtime of AuditChain/Hashing holds Node's
-- hash functions, dates and texts.
-- Rounding stands for the decimal library's division to four places, with the one fact
-- that a quotient above or below a whole number of units stays so; Scenarios/Round has an instance.
-- Division stands for that library's chains of products and quotients, about which nothing is
-- assumed. The distributed lock is an argument of recover_from_guarantors. In Ledger/Books the map
-- from GL account ids to deposits accounts is a parameter, right about the chart of accounts.
--
-- Bounds. No function uses fuel: the loops go over the rows of a table or a list of inputs. The
-- numbers are unbounded; the columns hold 14 digits before the point, far above the amounts in use.
--
-- Not modelled: payouts that run at the same time, each between the transactions of another; the
-- mobile money callbacks and the payout outbox, the loan application and disbursement, the daily
-- run that books interest, the product rules, the limits on requests, and all request handling,
-- reporting and I/O around them.
pub mod Base
pub mod Store
pub mod Ledger
pub mod LoanStatus
pub mod ApprovalChain
pub mod Arrears
pub mod AuditChain
pub mod Cache
pub mod Guarantors
pub mod DisbursementGate
pub mod GuarantorResponse
pub mod Idempotency
pub mod Pin
pub mod Recovery
pub mod Repayment
pub mod Scenarios
pub mod Withdrawals
