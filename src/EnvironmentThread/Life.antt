-- ===== src/EnvironmentThread/Life.antt =====
-- The whole life of an environment's thread.
use garnd.Io.{Io}
use garnd.Shm
use garnd.SocketSet
use garnd.SocketSet.{SocketSet}
