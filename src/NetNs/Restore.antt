-- ===== src/NetNs/Restore.antt =====
-- The namespace and the descriptors behind ns_get_ip_num.
