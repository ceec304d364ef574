-- ===== src/Uringblk/Abi.antt =====
-- The packed structures of driver/uringblk_driver.h that the administration commands copy out.
use kvm_db.Prelude.{ℕ, List}
use kvm_db.Uringblk.Request.{UringblkStats}

pub record Identify : Type 0 where
  pub model : List ℕ
  pub firmware : List ℕ
  pub logical_block_size : ℕ
  pub physical_block_size : ℕ
  pub capacity_sectors : ℕ
  pub features_bitmap : ℕ
  pub queue_count : ℕ
  pub queue_depth : ℕ
  pub max_segments : ℕ
  pub max_segment_size : ℕ
  pub dma_alignment : ℕ
  pub io_min : ℕ
  pub io_opt : ℕ
  pub discard_granularity : ℕ
  pub discard_max_bytes : ℕ

pub record Limits : Type 0 where
  pub max_hw_sectors_kb : ℕ
  pub max_sectors_kb : ℕ
  pub nr_hw_queues : ℕ
  pub queue_depth : ℕ
  pub max_segments : ℕ
  pub max_segment_size : ℕ
  pub dma_alignment : ℕ
  pub io_min : ℕ
  pub io_opt : ℕ
  pub discard_granularity : ℕ
  pub discard_max_bytes : ℕ

pub record Geometry : Type 0 where
  pub capacity_sectors : ℕ
  pub logical_block_size : ℕ
  pub physical_block_size : ℕ
  pub cylinders : ℕ
  pub heads : ℕ
  pub sectors_per_track : ℕ

-- What a command copies out.
pub data Payload : Type 0 where
  nothing : Payload
  identity : Identify → Payload
  limits : Limits → Payload
  features : ℕ → Payload
  geometry : Geometry → Payload
  statistics : UringblkStats → Payload

-- The sizes of the packed structures
abbrev pub size_identify : ℕ
size_identify = 120

abbrev pub size_limits : ℕ
size_limits = 48

abbrev pub size_geometry : ℕ
size_geometry = 20

abbrev pub size_stats : ℕ
size_stats = 104
