-- ===== src/Models.antt =====
-- app/models/: the records that the collectors fill and the API returns. Python's floats are scaled
-- integers here, tenths where the program rounds to one decimal and thousandths for the readings of
-- the sensors.
pub mod Warnings
pub mod Storage
pub mod Hardware
pub mod Kubernetes
pub mod Talos
pub mod Containers
pub mod Processes
