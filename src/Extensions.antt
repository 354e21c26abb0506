-- ===== src/Extensions.antt =====
-- rsocket/extensions: the metadata extensions, and the helpers of rsocket/helpers.py that they use.
pub mod Tables
pub mod WellKnown
pub mod Tagging
pub mod Authentication
pub mod Composite
pub mod Helpers
