-- ===== src/Cache/Uses.antt =====
-- `get` and `put` of Base/LRUCache.hpp count the users of a value, and move its node out of its queue
-- and back.
use tiny_backend.Cache.{Cache}
use tiny_backend.Cache.Held.{Held}
