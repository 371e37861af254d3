-- ===== src/Oracle/Tests.antt =====
-- The oracle (prototypes/xano/reference_model.py) on concrete tables.
mod Jobs
mod Orders
