-- ===== src/Projects/Covering.antt =====
-- That `_read_project_tree` of src/vomero_sandbox/runner.py leaves out no file that it is meant to take.
