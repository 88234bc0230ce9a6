-- ===== src/Config.antt =====
-- packages/config: the values of the environment, the loader that merges a YAML file into them and
-- reports what is wrong, and the hints for misspelled keys.
pub mod Distance
pub mod Load
pub mod Values
pub mod Startup
