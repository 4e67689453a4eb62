-- ===== src/Categorization.antt =====
-- Categorization, which labels mail: src/services/categorization/rules.py and pipeline.py,
-- src/services/classify/classifier.py and the labels of src/services/mailman/gmail_ops.py. Python's
-- `str.casefold` and `parseaddr`, the language model and Gmail are arguments.
pub mod Rules
pub mod Labels
pub mod Classifier
pub mod Pipeline
mod Tests
