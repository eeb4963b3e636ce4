-- ===== src/Endpoint/Setup/Checks.antt =====
-- What the checks of an endpoint decide (src/endpoint/configured.rs).
