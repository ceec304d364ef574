-- ===== src/Tools/UringIo/Transfers.antt =====
-- How a read, a write and a flush of the block driver's client end, src/kvm_uringblk.cc.
use mathlib.Core.Path.{subst}
use kvm_db.Prelude.{
  sym, ℕ, ◌%◌, ◌^◌, ◌≡◌, refl, ◌⊎◌, inl, inr, true, false, none, some, Option-cases, Bool-cases,
  arith,
}
use kvm_db.Prelude.Word.{u32}
use kvm_db.Prelude.Errno.{Errno, ebadf, enomem, Result, err}
use kvm_db.Tools.UringClient.{BlkClient, RingEnv, Called, called, ring_call}
use kvm_db.Tools.UringIo.{polled, read_async, write_async, flush_async}

-- The client is open and a ring was opened, with polling or without.
abbrev pub IsOpen : RingEnv → BlkClient → Type 0
IsOpen env c = (fd : ℕ) × (c.fd ≡ some fd) × ((env.poll_init ≡ none) ⊎ (env.queue_init ≡ none))

-- What a transfer gives, by the first of its steps that fails; `answer` is the completion's result.
pub data Ended (env : RingEnv) (c : BlkClient) (answer : Result ℕ) : Result ℕ → Type 0 where
  closed : c.fd ≡ none → Ended env c answer (err ebadf)
  no_ring :
      {fd : ℕ} {e e' : Errno}
      → c.fd ≡ some fd
      → env.poll_init ≡ some e
      → env.queue_init ≡ some e'
      → Ended env c answer (err e')
  no_entry : IsOpen env c → env.get_sqe ≡ false → Ended env c answer (err enomem)
  not_submitted :
      {e : Errno}
      → IsOpen env c
      → env.get_sqe ≡ true
      → env.submit ≡ some e
      → Ended env c answer (err e)
  not_waited :
      {e : Errno}
      → IsOpen env c
      → env.get_sqe ≡ true
      → env.submit ≡ none
      → env.wait_cqe ≡ some e
      → Ended env c answer (err e)
  completed :
      IsOpen env c
      → env.get_sqe ≡ true
      → env.submit ≡ none
      → env.wait_cqe ≡ none
      → Ended env c answer answer

abbrev IsClean : RingEnv → BlkClient → Result ℕ → Called ℕ → Type 0
IsClean env c answer run = Ended env c answer run.value × (run.rings ≡ 0)

clean :
    (env : RingEnv) (c : BlkClient) (answer value : Result ℕ) (run : Called ℕ)
    → run ≡ called value
    → Ended env c answer value
    → IsClean env c answer run
clean env c answer value run e ended = subst (IsClean env c answer) (sym e) (ended, refl)

ring_lem :
    (env : RingEnv) (c : BlkClient) (answer : Result ℕ)
    → IsOpen env c
    → IsClean env c answer (ring_call env answer)
unfolding ring_call
ring_lem env c answer o = elim (Bool-cases env.get_sqe) [
  | inr s ↦ clean env c answer (err enomem) _ (ground (arith, s)) (no_entry o s)
  | inl s ↦ elim (Option-cases env.submit) [
    | inr (e, b) ↦ clean env c answer (err e) _ (ground (arith, s, b)) (not_submitted o s b)
    | inl b ↦ elim (Option-cases env.wait_cqe) [
      | inr (e, w) ↦ clean env c answer (err e) _ (ground (arith, s, b, w)) (not_waited o s b w)
      | inl w ↦ clean env c answer answer _ (ground (arith, s, b, w)) (completed o s b w)
    ]
  ]
]

polled_lem :
    (env : RingEnv) (c : BlkClient) (answer : Result ℕ) (fd : ℕ)
    → c.fd ≡ some fd
    → IsClean env c answer (polled env (ring_call env answer))
polled_lem env c answer fd f = elim (Option-cases env.poll_init) [
  | inl p ↦
      let same : polled env (ring_call env answer) ≡ ring_call env answer = ground (arith, p) in
      subst (IsClean env c answer) (sym same) (ring_lem env c answer (fd, f, inl p))
  | inr (e, p) ↦ elim (Option-cases env.queue_init) [
    | inr (e', q) ↦ clean env c answer (err e') _ (ground (arith, p, q)) (no_ring f p q)
    | inl q ↦
        let same : polled env (ring_call env answer) ≡ ring_call env answer =
          ground (arith, p, q) in
        subst (IsClean env c answer) (sym same) (ring_lem env c answer (fd, f, inr q))
  ]
]

read_lem :
    (env : RingEnv) (c : BlkClient) (kernel : ℕ → ℕ → Result ℕ) (offset length : ℕ)
    → IsClean env c (kernel offset (u32 length)) (read_async env c kernel offset length)
unfolding read_async
read_lem env c kernel offset length =
    let answer = kernel offset (u32 length) in
    let run = read_async env c kernel offset length in
    elim (Option-cases c.fd) [
      | inl f ↦ clean env c answer (err ebadf) run (ground (arith, f)) (closed f)
      | inr (fd, f) ↦
          let same : run ≡ polled env (ring_call env answer) = ground (arith, f) in
          subst (IsClean env c answer) (sym same) (polled_lem env c answer fd f)
    ]

write_lem :
    (env : RingEnv) (c : BlkClient) (kernel : ℕ → ℕ → Result ℕ) (offset length : ℕ)
    → IsClean env c (kernel offset (u32 length)) (write_async env c kernel offset length)
unfolding write_async
write_lem env c kernel offset length =
    let answer = kernel offset (u32 length) in
    let run = write_async env c kernel offset length in
    elim (Option-cases c.fd) [
      | inl f ↦ clean env c answer (err ebadf) run (ground (arith, f)) (closed f)
      | inr (fd, f) ↦
          let same : run ≡ polled env (ring_call env answer) = ground (arith, f) in
          subst (IsClean env c answer) (sym same) (polled_lem env c answer fd f)
    ]

flush_rings :
    (env : RingEnv) (c : BlkClient) (kernel : Result ℕ) → (flush_async env c kernel).rings ≡ 0
unfolding flush_async ring_call
flush_rings env c kernel = ground arith

-- A read and a write end, whatever liburing's calls give, with the error of the first step that fails:
-- EBADF for a client that is not open, the error of opening a ring without polling where one with polling
-- was refused too, ENOMEM without a submission entry, the error of submitting or of waiting; and else
-- with what the kernel completes a request of the length modulo 2 ^ 32 with, so that of a transfer of 4
-- GiB or more only the rest is asked for. On each of these ways, and on every way out of a flush, no ring
-- is left open.
pub transfer_lem :
    (env : RingEnv) (c : BlkClient) (kernel : ℕ → ℕ → Result ℕ) (fsync : Result ℕ)
    (offset length : ℕ)
    → let r = read_async env c kernel offset length in
      let w = write_async env c kernel offset length in
      Ended env c (kernel offset (length % 2 ^ 32)) r.value
      × (r.rings ≡ 0)
      × Ended env c (kernel offset (length % 2 ^ 32)) w.value
      × (w.rings ≡ 0)
      × ((flush_async env c fsync).rings ≡ 0)
transfer_lem env c kernel fsync offset length =
    let (r, closed_r) = read_lem env c kernel offset length in
    let (w, closed_w) = write_lem env c kernel offset length in
    (r, closed_r, w, closed_w, flush_rings env c fsync)
