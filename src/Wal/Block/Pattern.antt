-- ===== src/Wal/Block/Pattern.antt =====
-- The loop that answers a block read.
use native.Mathlib.Decide.{dec_lt}
use kvm_db.Prelude.{
  ltb→lt, ltb→le, ℕ, zero, suc, ◌+◌, ◌-◌, ◌%◌, ◌≤◌, ◌<◌, min, ◌≡◌, refl, ◌∙◌, List, length, take,
  get_or, length-take, get_or-take, ltb, leb, arith, ◌⊎◌, inl, inr, true, false, Bool-cases,
}
use kvm_db.Prelude.Splice.{splice, length-splice, get_or-splice}
use kvm_db.Wal.Status.{response_msg, response_len}
use kvm_db.Wal.Block.{fill}

pub length-fill : (fuel pos : ℕ) (buffer : List ℕ) → length (fill fuel pos buffer) ≡ length buffer
unfolding fill
length-fill zero pos buffer = refl
length-fill (suc fuel) pos buffer =
    let chunk_size = min (length buffer - pos) response_len in
    let next = splice pos (take chunk_size response_msg) buffer in
    elim (Bool-cases (ltb pos (length buffer))) [
      | inl e ↦ rw e (length-fill fuel (pos + chunk_size) next ∙ length-splice pos _ buffer)
      | inr e ↦ rw e refl
    ]

-- The bytes before `pos` are those of the repeated message.
unfoldable Filled : ℕ → List ℕ → Type 0
Filled pos buffer = (i : ℕ) → i < pos → get_or buffer i 0 ≡ get_or response_msg (i % response_len) 0

filled_step :
    (pos i : ℕ)
    → pos % response_len ≡ 0
    → pos ≤ i
    → i < pos + response_len
    → i - pos ≡ i % response_len
filled_step pos i even lo hi = omega arith

-- A message copied at a position that the message's length divides.
chunk :
    (pos size i : ℕ) (buffer : List ℕ)
    → pos % response_len ≡ 0
    → size ≤ response_len
    → pos + size ≤ length buffer
    → Filled pos buffer
    → i < pos + size
    → get_or (splice pos (take size response_msg) buffer) i 0
      ≡ get_or response_msg (i % response_len) 0
unfolding Filled
chunk pos size i buffer even small fits done inside =
    let l : length (take size response_msg) ≡ size = omega (arith, length-take size response_msg) in
    rw (get_or-splice pos (take size response_msg) buffer i 0 (omega (arith, l)), l)
      (elim (dec_lt i pos) [
        | yes lo ↦ let e : leb pos i ≡ false = ground arith in rw e (done i lo)
        | no hi ↦
            let e : leb pos i ≡ true = ground arith in
            let f : ltb i (pos + size) ≡ true = ground arith in
            rw
              (
                e,
                f,
                get_or-take size response_msg (i - pos) 0 (omega arith),
                filled_step pos i even (omega arith) (omega arith),
              )
              refl
      ])

unfoldable Loop : ℕ → List ℕ → Type 0
Loop pos buffer =
    (pos ≤ length buffer) × ((pos % response_len ≡ 0) ⊎ (pos ≡ length buffer)) × Filled pos buffer

Loop-step :
    (pos : ℕ) (buffer : List ℕ)
    → pos < length buffer
    → Loop pos buffer
    → let chunk_size = min (length buffer - pos) response_len in
      Loop (pos + chunk_size) (splice pos (take chunk_size response_msg) buffer)
unfolding Loop Filled
Loop-step pos buffer more (inside, at, done) =
    let chunk_size = min (length buffer - pos) response_len in
    let even : pos % response_len ≡ 0 = omega arith in
    rw (length-splice pos (take chunk_size response_msg) buffer) (
      omega arith,
      ground arith,
      λ i h. chunk pos chunk_size i buffer even (omega arith) (omega arith) done h,
    )

-- After the loop the whole buffer is filled, where the fuel is at least the bytes left.
fill-Filled :
    (fuel pos : ℕ) (buffer : List ℕ)
    → length buffer ≤ pos + fuel
    → Loop pos buffer
    → Filled (length buffer) (fill fuel pos buffer)
unfolding fill Loop Filled
fill-Filled zero pos buffer enough (inside, at, done) = λ i h. done i (omega arith)
fill-Filled (suc fuel) pos buffer enough (inside, at, done) =
    let chunk_size = min (length buffer - pos) response_len in
    let next = splice pos (take chunk_size response_msg) buffer in
    let same : length next ≡ length buffer =
      length-splice pos (take chunk_size response_msg) buffer in
    elim (Bool-cases (ltb pos (length buffer))) [
      | inl e ↦
          let more : pos < length buffer = ltb→lt pos (length buffer) e in
          rw e (λ i h.
            fill-Filled fuel (pos + chunk_size) next (omega arith)
              (Loop-step pos buffer more (inside, at, done)) i (omega (arith, same)))
      | inr e ↦ rw e (λ i h. done i (omega (arith, ltb→le pos (length buffer) e)))
    ]

-- The loop that answers a read ends with every byte of the buffer that of the repeated message,
-- the buffer's length unchanged; the buffer's length is fuel enough.
pub fill_lem :
    (buffer : List ℕ) (i : ℕ)
    → i < length buffer
    → (length (fill (length buffer) 0 buffer) ≡ length buffer)
      × (get_or (fill (length buffer) 0 buffer) i 0 ≡ get_or response_msg (i % response_len) 0)
unfolding Loop Filled
fill_lem buffer i h = (
  length-fill (length buffer) 0 buffer,
  fill-Filled (length buffer) 0 buffer (omega arith)
      (omega arith, inl refl, λ j k. absurd (omega arith)) i h,
)
