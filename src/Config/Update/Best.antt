-- ===== src/Config/Update/Best.antt =====
-- retry_config_file.go: which rule of a loaded file applies to a scope.
