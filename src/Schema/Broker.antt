-- ===== src/Schema/Broker.antt =====
-- The payloads of the broker's events pass the validation of their types.
