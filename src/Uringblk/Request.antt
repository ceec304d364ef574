-- ===== src/Uringblk/Request.antt =====
-- Requests and their statistics, driver/uringblk_main.c and driver/uringblk_driver.h.
use kvm_db.Prelude.{ℕ, ◌+◌, ◌/◌, List}
use kvm_db.Prelude.Word.{u64, inc64}
use kvm_db.Uringblk.Backend.{Backend}

-- `blk_status_t`; a device may report any other status, by its number.
pub data BlkStatus : Type 0 where
  sts_ok sts_ioerr sts_notsupp : BlkStatus
  sts_other : ℕ → BlkStatus

pub data ReqOp : Type 0 where
  op_read op_write op_flush op_discard op_drv_in op_drv_out op_other : ReqOp

-- A request: its operation, first sector, `blk_rq_bytes` and the buffers of its segments.
pub record Request : Type 0 where
  pub op : ReqOp
  pub sector : ℕ
  pub size : ℕ
  pub buffers : List (List ℕ)

-- `struct uringblk_stats`
pub record UringblkStats : Type 0 where
  pub read_ops : ℕ
  pub write_ops : ℕ
  pub flush_ops : ℕ
  pub discard_ops : ℕ
  pub read_sectors : ℕ
  pub write_sectors : ℕ
  pub read_bytes : ℕ
  pub write_bytes : ℕ
  pub queue_full_events : ℕ
  pub media_errors : ℕ
  pub retries : ℕ
  pub p50_read_latency_us : ℕ
  pub p99_read_latency_us : ℕ
  pub p50_write_latency_us : ℕ
  pub p99_write_latency_us : ℕ

-- The part of `struct uringblk_device` that requests use.
pub record UringblkDisk : Type 0 where
  pub stats : UringblkStats
  pub backend : Backend

-- The `switch` under the statistics lock; `sectors` is `blk_rq_sectors`.
unfoldable pub count_request : UringblkStats → ReqOp → ℕ → UringblkStats
count_request s op_read size = record s {
  read_ops = inc64 s.read_ops;
  read_sectors = u64 (s.read_sectors + size / 512);
  read_bytes = u64 (s.read_bytes + size);
}
count_request s op_write size = record s {
  write_ops = inc64 s.write_ops;
  write_sectors = u64 (s.write_sectors + size / 512);
  write_bytes = u64 (s.write_bytes + size);
}
count_request s op_flush size = record s { flush_ops = inc64 s.flush_ops }
count_request s op_discard size = record s { discard_ops = inc64 s.discard_ops }
count_request s op size = s
