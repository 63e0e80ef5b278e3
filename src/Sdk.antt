-- ===== src/Sdk.antt =====
-- resilient-sdk/resilient_sdk/util/sdk_helpers.py: how the SDK cuts the export of an organization down
-- to the objects of one package.
pub mod Scrub
pub mod Hierarchy
pub mod Minify
pub mod Scrubbed
pub mod Sections
pub mod Exports
pub mod Objects
pub mod Wanted
