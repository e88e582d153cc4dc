-- ===== src/Runs.antt =====
-- Concrete runs of the modelled code, and the theorems at concrete inputs, by part.
pub mod Wire
pub mod L2
pub mod Delivery
pub mod Reflector
pub mod Repeater
pub mod StaticSwitch
pub mod BroadcastSwitch
pub mod Ip
pub mod Int
pub mod Vxlan
pub mod Lpm
pub mod Firewall
pub mod Ecmp
pub mod Registers
pub mod Switch
pub mod Runtime
pub mod Processes
