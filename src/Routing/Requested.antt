-- ===== src/Routing/Requested.antt =====
-- A request whose metadata the other side has built with the helpers.
use rsocket_py.Bytes.{Bytes}
