-- ===== src/Schema.antt =====
-- libsrc/utils/jsonschema/QJsonSchemaChecker.cpp: the schemas that the configuration is checked by.
pub mod Json
pub mod Checker
pub mod Validate
pub mod Conforms
pub mod Outcome
pub mod Sound
pub mod Tests
