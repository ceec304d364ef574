-- ===== src/Uringblk/Device/Waited.antt =====
-- The waiting operations of the device backend, driver/uringblk_main.c, against the asynchronous ones.
use kvm_db.Prelude.{
  ℕ, ◌/◌, ◌^◌, min, ◌≡◌, ◌≢◌, refl, sym, ap, ◌∙◌, Option-cases, Bool-cases, ◌⊎◌, inl, inr, true,
  Option, none, some, List, [], take, arith,
}
use kvm_db.Prelude.Errno.{Errno, Result, ok, err}
use kvm_db.Uringblk.Backend.{Backend, past_end}
use kvm_db.Uringblk.Request.{BlkStatus, sts_ok, ReqOp, op_read, op_write, op_flush}
use kvm_db.Uringblk.Device.{
  IoContext, AsyncEnv, page_size, page_bio, device_backend_read_async, device_backend_write_async,
  device_backend_flush_async, device_backend_bio_complete,
}
use kvm_db.Uringblk.Device.Sync.{
  Bio, BioDevice, Waited, as_result, refused, page_guarded, device_backend_read,
  device_backend_write, device_backend_flush,
}

-- The bio of an asynchronous submission.
abbrev pub bio_of : IoContext → Bio
bio_of ctx = record { op = ctx.op; sector = ctx.bio_sector; bv_len = ctx.bv_len; page = ctx.page }

-- What an asynchronous submission comes to once its completion has run.
abbrev pub completed : BioDevice → List ℕ → Result IoContext → Waited
completed dev buf (err e) = refused buf e
completed dev buf (ok ctx) =
    let (status, page) = dev.complete (bio_of ctx) in
    let (told, after) = device_backend_bio_complete ctx status page buf in
    record {
      result = as_result (dev.blk_status_to_errno told);
      buffer = after;
      submitted = some (bio_of ctx);
    }

-- `blk_status_to_errno` gives no error for `BLK_STS_OK`, and for no other status.
pub record IsStatusMap (to_errno : BlkStatus → Option Errno) : Type 0 where
  pub of_ok : to_errno sts_ok ≡ none
  pub of_other : (s : BlkStatus) → (s ≡ sts_ok) ⊎ ((e : Errno) × (to_errno s ≡ some e))

bio_complete_failed :
    (ctx : IoContext) (s : BlkStatus) (page buf : List ℕ)
    → s ≢ sts_ok
    → device_backend_bio_complete ctx s page buf ≡ (s, buf)
unfolding device_backend_bio_complete
bio_complete_failed ctx BlkStatus.sts_ok page buf h = absurd (h refl)
bio_complete_failed ctx BlkStatus.sts_ioerr page buf h = refl
bio_complete_failed ctx BlkStatus.sts_notsupp page buf h = refl
bio_complete_failed ctx (BlkStatus.sts_other n) page buf h = refl

-- The completion of a submission, by the status that the device gives.
completed_ok :
    (dev : BioDevice) (buf : List ℕ) (ctx : IoContext)
    → IsStatusMap dev.blk_status_to_errno
    → (dev.complete (bio_of ctx)).0 ≡ sts_ok
    → completed dev buf (ok ctx) ≡ record {
      result = ok 0;
      buffer = (device_backend_bio_complete ctx sts_ok (dev.complete (bio_of ctx)).1 buf).1;
      submitted = some (bio_of ctx);
    }
unfolding device_backend_bio_complete
completed_ok dev buf ctx m h = ground (arith, m.of_ok, h)

completed_failed :
    (dev : BioDevice) (buf : List ℕ) (ctx : IoContext) (e : Errno)
    → IsStatusMap dev.blk_status_to_errno
    → dev.blk_status_to_errno (dev.complete (bio_of ctx)).0 ≡ some e
    → completed dev buf (ok ctx)
      ≡ record { result = err e; buffer = buf; submitted = some (bio_of ctx) }
completed_failed dev buf ctx e m h =
    let failed : (dev.complete (bio_of ctx)).0 ≢ sts_ok = λ p. ground (arith, p, h, m.of_ok) in
    rw
      (
        bio_complete_failed ctx (dev.complete (bio_of ctx)).0 (dev.complete (bio_of ctx)).1 buf
            failed,
        h,
      )
      refl

abbrev waiting : AsyncEnv → AsyncEnv
waiting env = record env { context = true }

abbrev page_context : ReqOp → ℕ → ℕ → List ℕ → IoContext
page_context op pos len page = record {
  op = op;
  pos = pos;
  len = len;
  bio_sector = pos / 2 ^ 9;
  bv_len = min len page_size;
  page = page;
}

-- The same guards stand before the submission.
guarded_lem :
    (env : AsyncEnv) (dev : BioDevice) (op : ReqOp) (b : Backend) (pos len : ℕ) (buf page : List ℕ)
    → page_guarded env b pos len buf (completed dev buf (ok (page_context op pos len page)))
      ≡ completed dev buf (page_bio (waiting env) op b pos len page)
unfolding page_bio
guarded_lem env dev op b pos len buf page = elim (Option-cases b.private_data) [
  | inl n ↦ rw n refl
  | inr (bytes, n) ↦ rw n (elim (Bool-cases (past_end b pos len)) [
    | inl a ↦ rw a refl
    | inr a ↦ elim (Bool-cases env.page) [
      | inr c ↦ rw (a, c) refl
      | inl c ↦ elim (Bool-cases env.added) [
        | inl d ↦ rw (a, c, d) refl
        | inr d ↦ rw (a, c, d) refl
      ]
    ]
  ])
]

-- What a wait for the bio comes to.
waited_lem :
    (dev : BioDevice) (buf : List ℕ) (ctx : IoContext)
    → IsStatusMap dev.blk_status_to_errno
    → elim (dev.blk_status_to_errno (dev.complete (bio_of ctx)).0) [
      | none ↦ record {
        result = ok 0;
        buffer = (device_backend_bio_complete ctx sts_ok (dev.complete (bio_of ctx)).1 buf).1;
        submitted = some (bio_of ctx);
      }
      | some e ↦ record { result = err e; buffer = buf; submitted = some (bio_of ctx) }
    ]
      ≡ completed dev buf (ok ctx)
waited_lem dev buf ctx m = elim (m.of_other (dev.complete (bio_of ctx)).0) [
  | inl s ↦ rw (s, m.of_ok) refl ∙ sym (completed_ok dev buf ctx m s)
  | inr (e, s) ↦ rw s refl ∙ sym (completed_failed dev buf ctx e m s)
]

-- What the write and the flush wait for.
sent_lem :
    (dev : BioDevice) (buf : List ℕ) (ctx : IoContext)
    → IsStatusMap dev.blk_status_to_errno
    → (device_backend_bio_complete ctx sts_ok (dev.complete (bio_of ctx)).1 buf).1 ≡ buf
    → record {
      result = as_result (dev.blk_status_to_errno (dev.complete (bio_of ctx)).0);
      buffer = buf;
      submitted = some (bio_of ctx);
    }
      ≡ completed dev buf (ok ctx)
sent_lem dev buf ctx m same = elim (m.of_other (dev.complete (bio_of ctx)).0) [
  | inl s ↦ rw (s, m.of_ok, same) refl ∙ sym (completed_ok dev buf ctx m s)
  | inr (e, s) ↦ rw s refl ∙ sym (completed_failed dev buf ctx e m s)
]

-- Reading, writing and flushing a device, where `blk_status_to_errno` gives an error for every status
-- but `BLK_STS_OK`, do what their asynchronous forms with memory for a context have done once the
-- completion has run: the same bio is submitted or the same error returned before it, the buffer ends
-- up the same, and the result is the errno of the status with which the request is ended.
pub sync_as_async :
    (env : AsyncEnv) (dev : BioDevice) (b : Backend) (pos : ℕ) (buf : List ℕ) (len : ℕ)
    → IsStatusMap dev.blk_status_to_errno
    → let waiting = record env { context = true } in
      (device_backend_read env dev b pos buf len
        ≡ completed dev buf (device_backend_read_async waiting b pos len))
      × (device_backend_write env dev b pos buf len
          ≡ completed dev buf (device_backend_write_async waiting b pos buf len))
      × (device_backend_flush dev b ≡ completed dev [] (device_backend_flush_async waiting b))
unfolding device_backend_read device_backend_write device_backend_flush device_backend_read_async
    device_backend_write_async device_backend_flush_async device_backend_bio_complete
sync_as_async env dev b pos buf len m =
    let sent = take (min len page_size) buf in
    let flush : IoContext = record {
      op = op_flush;
      pos = 0;
      len = 0;
      bio_sector = 0;
      bv_len = 0;
      page = [];
    } in
    (
      ap (page_guarded env b pos len buf) (waited_lem dev buf (page_context op_read pos len []) m)
          ∙ guarded_lem env dev op_read b pos len buf [],
      ap (page_guarded env b pos len buf)
            (sent_lem dev buf (page_context op_write pos len sent) m refl)
          ∙ guarded_lem env dev op_write b pos len buf sent,
      elim (Option-cases b.private_data) [
        | inl n ↦ rw n refl
        | inr (bytes, n) ↦ rw n (sent_lem dev [] flush m refl)
      ],
    )
