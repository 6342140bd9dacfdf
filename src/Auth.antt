-- ===== src/Auth.antt =====
-- services/platform-api/internal/auth: the limiter of failed logins (limiter.go). An instant is a number of
-- nanoseconds since Go's zero time, which is 0; the map of entries is an association list with one
-- entry for a key, and a loop over the map goes through the list in its order.
pub mod Limiter
