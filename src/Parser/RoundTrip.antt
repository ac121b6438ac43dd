-- ===== src/Parser/RoundTrip.antt =====
-- What the parser makes of what the writer wrote: `parse_central_directory` over the bytes of
-- `write_central_directory`.
pub mod Header
pub mod ExtraFields
pub mod Entry
pub mod Listing
pub mod Archive
