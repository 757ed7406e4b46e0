-- ===== src/Devices.antt =====
-- pintos/devices: the queues between interrupt handlers and threads.
pub mod Intq
