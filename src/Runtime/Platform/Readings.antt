-- ===== src/Runtime/Platform/Readings.antt =====
-- What an administrator sets is what the program reads.
use saveinator.Redis.{Redis}
use saveinator.Runtime.Setting.{Setting}
use saveinator.Runtime.Value.{Value}
