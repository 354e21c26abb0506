-- ===== src/Tests.antt =====
-- Runs of the modelled code on small inputs.
mod Wire
mod Streams
mod Metadata
mod Channels
mod Connections
mod Responses
mod Routes
mod Sources
mod OverWire
mod Signals
mod Requests
mod Requesting
mod Clients
mod RoutedServers
