-- ===== src/Domain/Coverage/Examples.antt =====
-- The theorems about coverage.py at concrete inputs.
