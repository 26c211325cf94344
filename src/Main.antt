-- ===== src/Main.antt =====
-- firmware/main but for trap_monitor.c, which is `Monitor`: wifi_provisioning.c and app_main.c.
pub mod Provisioning
pub mod AppMain
