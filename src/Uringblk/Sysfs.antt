-- ===== src/Uringblk/Sysfs.antt =====
-- The attributes of a disk under sysfs, driver/uringblk_sysfs.c.
pub mod Shown
use kvm_db.Prelude.{ℕ, Bool, Option, none, some, List, [], ◌∷◌, ◌++◌, ◌==◌, if◌then◌else◌}
use kvm_db.Prelude.Errno.{einval, Result, ok, err}
use kvm_db.Prelude.Text.{codes, print_line}
use kvm_db.Uringblk.Request.{UringblkStats}
use kvm_db.Uringblk.Instance.{UringblkDevice, no_stats}

-- The attributes that show a counter.
pub data Counter : Type 0 where
  attr_read_ops attr_write_ops attr_read_bytes attr_write_bytes attr_flush_ops attr_discard_ops
        attr_queue_full_events attr_media_errors :
      Counter

-- The attributes that show a part of the device's configuration.
pub data Setting : Type 0 where
  attr_features attr_firmware_rev attr_model attr_nr_hw_queues attr_queue_depth attr_poll_enabled
        attr_discard_enabled attr_write_cache attr_capacity :
      Setting

-- What is read under the statistics lock.
abbrev pub counter_of : Counter → UringblkStats → ℕ
counter_of attr_read_ops s = s.read_ops
counter_of attr_write_ops s = s.write_ops
counter_of attr_read_bytes s = s.read_bytes
counter_of attr_write_bytes s = s.write_bytes
counter_of attr_flush_ops s = s.flush_ops
counter_of attr_discard_ops s = s.discard_ops
counter_of attr_queue_full_events s = s.queue_full_events
counter_of attr_media_errors s = s.media_errors

-- `read_ops_show` and the like.
unfoldable pub counter_show : Counter → UringblkDevice → List ℕ
counter_show a dev = print_line 10 (counter_of a dev.stats)

-- A zeroed backend has capacity 0.
abbrev pub capacity_of : UringblkDevice → ℕ
capacity_of dev = elim dev.backend [ none ↦ 0 | some b ↦ b.capacity ]

abbrev line : List ℕ → List ℕ
line text = text ++ 10 ∷ []

-- `features_show` and the like.
unfoldable pub setting_show : Setting → UringblkDevice → List ℕ
setting_show attr_features dev = codes "0x" ++ print_line 16 dev.features
setting_show attr_firmware_rev dev = line dev.firmware
setting_show attr_model dev = line dev.model
setting_show attr_nr_hw_queues dev = print_line 10 dev.config.nr_hw_queues
setting_show attr_queue_depth dev = print_line 10 dev.config.queue_depth
setting_show attr_poll_enabled dev =
    line (if dev.config.enable_poll then codes "enabled" else codes "disabled")
setting_show attr_discard_enabled dev =
    line (if dev.config.enable_discard then codes "enabled" else codes "disabled")
setting_show attr_write_cache dev =
    line (if dev.config.write_cache then codes "write-back" else codes "write-through")
setting_show attr_capacity dev = print_line 10 (capacity_of dev)

-- `parsed`: what `kstrtoint` reads from the text, an `int` by its bits; none: it gives an error.
unfoldable pub stats_reset_store : UringblkDevice → Option ℕ → ℕ → Result ℕ × UringblkDevice
stats_reset_store dev none count = (err einval, dev)
stats_reset_store dev (some val) count =
    if val == 1 then (ok count, record dev { stats = no_stats }) else (err einval, dev)
