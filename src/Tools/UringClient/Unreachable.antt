-- ===== src/Tools/UringClient/Unreachable.antt =====
-- The client's administration commands over the driver.
use kvm_db.Prelude.{
  ℕ, ◌≡◌, refl, ap, ◌∙◌, Bool, true, false, Option, none, some, List, [], length, ◌≤◌, arith,
}
use kvm_db.Prelude.Errno.{eopnotsupp, Result, err}
use kvm_db.Uringblk.Admin.{
  AdminDevice, LockState, CmdOutcome, refused, queued, dispatch, uringblk_uring_cmd,
}
use kvm_db.Tools.UringClient.{
  BlkClient, RingEnv, UringCmdArea, CmdBuffer, CmdPath, called, ring_call, command_buffer,
  send_uring_cmd, identify, get_limits, get_features, set_features, get_geometry, get_stats,
}

abbrev pub outcome_result : CmdOutcome → Result ℕ
outcome_result (refused e) = err e
outcome_result (queued r p) = r

module _ (lbs : ℕ) (lock : LockState) (dev : AdminDevice) (nonblock copies : Bool)
    (argument : Option ℕ) where
  -- The driver's answer on its administration device. What it copies out goes to the area's address,
  -- not into the command's buffer.
  abbrev pub driver_kernel : UringCmdArea → CmdBuffer → Result ℕ × List ℕ
  driver_kernel area buffer = (
    outcome_result
        (uringblk_uring_cmd lbs lock (some dev) (record {
          cancel = false;
          nonblock = nonblock;
          opcode = area.opcode;
          len = area.len;
          copies = copies;
          argument = argument;
        })).0,
    buffer.bytes,
  )

  -- The path of a command over the driver.
  abbrev pub driver_path : (CmdBuffer → UringCmdArea) → List ℕ → CmdPath
  driver_path prep_rw stack = record { prep_rw = prep_rw; kernel = driver_kernel; stack = stack }

abbrev pub zero_area : UringCmdArea
zero_area = record { opcode = 0; flags = 0; len = 0; addr = 0 }

-- The ring's calls succeed.
pub record IsUp (env : RingEnv) : Type 0 where
  pub init : env.queue_init ≡ none
  pub sqe : env.get_sqe ≡ true
  pub submitted : env.submit ≡ none
  pub waited : env.wait_cqe ≡ none

zero_refused :
    (lbs : ℕ) (lock : LockState) (dev : AdminDevice) (copies : Bool) (argument : Option ℕ)
    (buffer : CmdBuffer)
    → lock.interrupted ≡ false
    → driver_kernel lbs lock dev false copies argument zero_area buffer
      ≡ (err eopnotsupp, buffer.bytes)
unfolding uringblk_uring_cmd dispatch
zero_refused lbs lock dev copies argument buffer free = rw free refl

send_refused :
    (env : RingEnv) (path : CmdPath) (opcode : ℕ) (payload : List ℕ) (size : ℕ)
    → IsUp env
    → length payload ≤ 4096
    → ((buffer : CmdBuffer) → (path.kernel (path.prep_rw buffer) buffer).0 ≡ err eopnotsupp)
    → send_uring_cmd env path opcode payload size ≡ called (err eopnotsupp)
unfolding send_uring_cmd ring_call
send_refused env path opcode payload size up short refuses = ground (
  arith,
  up.init,
  up.sqe,
  up.submitted,
  up.waited,
  short,
  refuses (command_buffer path.stack opcode payload),
)

-- Over the driver's administration device, whose lock is free, every command of the client fails with
-- EOPNOTSUPP whatever the device is, as the client puts its opcode into a buffer of its own and never
-- into the area of the submission entry that the driver reads. The ring's calls succeed, no word of
-- features is longer than the buffer, and `io_uring_prep_rw` leaves that area zero.
pub admin_unreachable :
    (env : RingEnv) (lbs : ℕ) (lock : LockState) (dev : AdminDevice) (copies : Bool)
    (argument : Option ℕ) (prep_rw : CmdBuffer → UringCmdArea) (stack word : List ℕ) (c : BlkClient)
    (fd : ℕ)
    → c.fd ≡ some fd
    → IsUp env
    → lock.interrupted ≡ false
    → length word ≤ 4096
    → prep_rw ≡ (λ buffer. zero_area)
    → let path = driver_path lbs lock dev false copies argument prep_rw stack in
      (identify env path c ≡ called (err eopnotsupp))
      × (get_limits env path c ≡ called (err eopnotsupp))
      × (get_features env path c ≡ called (err eopnotsupp))
      × (set_features env path c word ≡ called (err eopnotsupp))
      × (get_geometry env path c ≡ called (err eopnotsupp))
      × (get_stats env path c ≡ called (err eopnotsupp))
unfolding identify get_limits get_features set_features get_geometry get_stats
admin_unreachable env lbs lock dev copies argument prep_rw stack word c fd o up free short zero =
    let path : CmdPath = driver_path lbs lock dev false copies argument prep_rw stack in
    let refuses : (buffer : CmdBuffer)
        → (path.kernel (path.prep_rw buffer) buffer).0 ≡ err eopnotsupp =
      λ buffer.
        ap
          (λ (f : CmdBuffer → UringCmdArea).
            (driver_kernel lbs lock dev false copies argument (f buffer) buffer).0)
          zero
        ∙ ap (λ (r : Result ℕ × List ℕ). r.0)
            (zero_refused lbs lock dev copies argument buffer free) in
    let sent : (opcode : ℕ) (payload : List ℕ) (size : ℕ)
        → length payload ≤ 4096
        → send_uring_cmd env path opcode payload size ≡ called (err eopnotsupp) =
      λ opcode payload size short. send_refused env path opcode payload size up short refuses in
    (
      ground (arith, o, sent 1 [] 120 (omega arith)),
      ground (arith, o, sent 2 [] 48 (omega arith)),
      ground (arith, o, sent 3 [] 8 (omega arith)),
      ground (arith, o, sent 4 word 0 short),
      ground (arith, o, sent 5 [] 20 (omega arith)),
      ground (arith, o, sent 6 [] 104 (omega arith)),
    )
