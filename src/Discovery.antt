-- ===== src/Discovery.antt =====
-- discovery/rtps_discovery_sniffer.py: what the RTPS packets of a capture tell about participants and
-- endpoints, and the report on it.
pub mod Json
pub mod Decode
pub mod Spdp
pub mod Participants
pub mod Sedp
pub mod Packets
pub mod Cases
pub mod Runs
pub mod Versions
pub mod Flags
pub mod Walk
pub mod Known
pub mod Identity
pub mod Endpoints
pub mod Invariant
pub mod Verdicts
pub mod Matching
pub mod Merging
pub mod Blanks
mod Tests
