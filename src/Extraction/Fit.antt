-- ===== src/Extraction/Fit.antt =====
-- extraction/general_extractor.py and extraction/template_extractor.py against the columns
-- `currency CHAR(3)` and `card_last4 CHAR(4)` of models/extraction.py.
mod Card
mod Signs
mod Currency
pub mod Templates
pub mod Fields
pub mod Amounts
