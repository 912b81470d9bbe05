-- ===== src/Ota/Launch.antt =====
-- `ota_server_start` of src/lib/ota.c: it creates the task that runs `server_task`.
use vedruino.Base.{Bool, M, pure, ◌>>=◌, call}
use vedruino.Ota.Platform.{Platform, State, io}

-- `task_create` is `xTaskCreateStatic` for `server_task` with the low priority; `false` is NULL.
pub ota_server_start : (p : Platform) → (task_create : p.World → Bool × p.World) → M (State p) Bool
ota_server_start p task_create = io p (call task_create) >>= λ created. pure created
