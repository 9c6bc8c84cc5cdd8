-- ===== src/Timeline/Order.antt =====
-- The timeline's order, and that it holds each event and each check of the deployment once.
