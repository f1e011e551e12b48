-- ===== src/Boblight.antt =====
-- libsrc/boblightserver/BoblightClientConnection.cpp: one client of the Boblight server.
pub mod Text
pub mod Connection
pub mod Lines
pub mod Serves
pub mod Closes
pub mod Tests
