-- ===== src/Cache.antt =====
-- services/lab-app/internal/cache: the cache that an application server of a lab keeps in its process (l1.go).
pub mod L1
