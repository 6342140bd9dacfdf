-- ===== src/Traffic.antt =====
-- services/platform-api/internal/traffic: the limiter of traffic requests (limiter.go). The numbers of Go's
-- `float64` are a parameter. An instant is a number of nanoseconds since Go's zero time, which is 0; the
-- map of entries is an association list, and a loop over the map goes through the list in its order.
pub mod Limiter
