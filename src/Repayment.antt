-- ===== src/Repayment.antt =====
-- src/modules/loans/loan-repayment.service.ts
pub mod Waterfall
pub mod Installments
pub mod Process
pub mod Legs
