-- ===== src/Optimizer.antt =====
-- app/optimizer.py: the rules that turn telemetry into commands.
pub mod Signals
pub mod Channels
pub mod Halow
pub mod Wifi24
pub mod Pass
