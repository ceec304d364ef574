-- ===== src/Uringblk/Device.antt =====
-- The asynchronous operations of the device backend, driver/uringblk_main.c, and the completion of
-- their bio.
pub mod Sync
pub mod Waited
pub mod Open
use kvm_db.Prelude.{ℕ, ◌/◌, ◌^◌, min, Bool, not, none, some, List, [], take, if◌then◌else◌}
use kvm_db.Prelude.Splice.{splice}
use kvm_db.Prelude.Errno.{einval, enomem, eio, Result, ok, err}
use kvm_db.Uringblk.Backend.{Backend, past_end}
use kvm_db.Uringblk.Request.{BlkStatus, sts_ok, ReqOp, op_read, op_write, op_flush}

-- `struct uringblk_io_context` with the bio that is submitted: the length of its one page vector,
-- and the page's content for a write.
pub record IoContext : Type 0 where
  pub op : ReqOp
  pub pos : ℕ
  pub len : ℕ
  pub bio_sector : ℕ
  pub bv_len : ℕ
  pub page : List ℕ

-- Whether `kmalloc`, `alloc_page` and `bio_add_page` succeed.
pub record AsyncEnv : Type 0 where
  pub context : Bool
  pub page : Bool
  pub added : Bool

abbrev pub page_size : ℕ
page_size = 4096

-- What reads and writes share; `page` is what a write copies.
unfoldable pub page_bio : AsyncEnv → ReqOp → Backend → ℕ → ℕ → List ℕ → Result IoContext
page_bio env op b pos len page = elim b.private_data [
  | none ↦ err einval
  | some handle ↦
      if past_end b pos len
      then err einval
      else if not env.context
      then err enomem
      else if not env.page
      then err enomem
      else if not env.added
      then err eio
      else ok record {
        op = op;
        pos = pos;
        len = len;
        bio_sector = pos / 2 ^ 9;
        bv_len = min len page_size;
        page = page;
      }
]

unfoldable pub device_backend_read_async : AsyncEnv → Backend → ℕ → ℕ → Result IoContext
unfolding page_bio
device_backend_read_async env b pos len = page_bio env op_read b pos len []

unfoldable pub device_backend_write_async : AsyncEnv → Backend → ℕ → List ℕ → ℕ → Result IoContext
unfolding page_bio
device_backend_write_async env b pos buf len =
    page_bio env op_write b pos len (take (min len page_size) buf)

unfoldable pub device_backend_flush_async : AsyncEnv → Backend → Result IoContext
device_backend_flush_async env b = elim b.private_data [
  | none ↦ err einval
  | some handle ↦
      if not env.context
      then err enomem
      else ok record { op = op_flush; pos = 0; len = 0; bio_sector = 0; bv_len = 0; page = [] }
]

-- The completion of the bio with the status that the device gave and the page as the device left it:
-- the status with which the request is ended, and the first segment's buffer.
unfoldable pub device_backend_bio_complete :
    IoContext → BlkStatus → List ℕ → List ℕ → BlkStatus × List ℕ
unfolding splice
device_backend_bio_complete ctx sts_ok page buf = elim ctx.op [
  | op_read ↦ (sts_ok, splice 0 (take (min ctx.len page_size) page) buf)
  | _ ↦ (sts_ok, buf)
]
device_backend_bio_complete ctx status page buf = (status, buf)
