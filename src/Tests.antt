-- ===== src/Tests.antt =====
-- Runs of the definitions, and the theorems at concrete data.
mod Data
mod DiskData
mod NameTests
mod PolicyTests
mod LimitTests
mod StoreTests
mod BrokerTests
mod SettingsTests
mod AgentTests
mod EventTests
mod AgentData
mod LockTests
mod ClientTests
mod RunTests
mod OutsideTests
mod ListenTests
