-- ===== src/Pool/Crew/Backed.antt =====
-- services/weatherlink-sql/service/worker_pool.go: the tags that the cache has and that the workers
-- hold, against the tags table.
use roach.Base.{nat_eq}
use roach.Pool.Crew.{Crew}
