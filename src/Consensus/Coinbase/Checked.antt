-- ===== src/Consensus/Coinbase/Checked.antt =====
-- `verify_coinbase` against `build_coinbase` and against its conditions.
