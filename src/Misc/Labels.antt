-- ===== src/Misc/Labels.antt =====
-- The labels of the running system in src/lib/misc.c.
use Prim.Native.String.{String}
use vedruino.Base.{ℕ, Option, none, some, List}

-- `esp_reset_reason_t`, as far as the function tells the reasons apart.
pub data ResetReason : Type 0 where
  power_on external software panic int_wdt task_wdt wdt deep_sleep brownout sdio unknown :
      ResetReason

pub pk_reset_reason_str : ResetReason → String
pk_reset_reason_str power_on = "POWERON"
pk_reset_reason_str external = "EXIT"
pk_reset_reason_str software = "SOFT"
pk_reset_reason_str panic = "PANIC"
pk_reset_reason_str int_wdt = "INT_WDT"
pk_reset_reason_str task_wdt = "TASK_WDT"
pk_reset_reason_str wdt = "WDT"
pk_reset_reason_str deep_sleep = "DEEPSLEEP"
pk_reset_reason_str brownout = "BROWNOUT"
pk_reset_reason_str sdio = "SDIO"
pk_reset_reason_str unknown = "UNKNOWN"

-- `part` is the label of `esp_ota_get_running_partition()`; `none` is NULL.
pub pk_running_part_label : (part : Option (List ℕ)) → Option (List ℕ)
pk_running_part_label none = none
pk_running_part_label (some label) = some label
