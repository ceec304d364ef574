-- ===== src/Uringblk/Backend/Memory.antt =====
-- The virtual backend as a memory of bytes, which is what its operations promise.
use native.Mathlib.Nat.{zero-add, suc-add}
use mathlib.Core.Path.{subst}
use kvm_db.Prelude.{
  fun_ext, ℕ, zero, suc, ◌+◌, ◌-◌, ◌^◌, ◌≤◌, ◌<◌, ◌≡◌, refl, sym, ◌∙◌, ◌&&◌, none, some, List, [],
  ◌∷◌, length, get_or, take, drop, replicate, length-replicate, length-take, length-drop,
  get_or-replicate, get_or-take, ltb, leb, if◌then◌else◌, arith, Bool-cases, inl, inr,
}
use kvm_db.Prelude.Splice.{splice, length-splice, get_or-splice}
use kvm_db.Prelude.Slice.{bytes}
use kvm_db.Prelude.Errno.{einval, ok, err}
use kvm_db.Uringblk.Backend.{
  Backend, backend_virtual, virtual_backend_read, virtual_backend_write, virtual_backend_discard,
}

-- A virtual backend that is up: its memory is as long as its capacity, which a file position can
-- address.
pub record IsMemory (b : Backend) : Type 0 where
  pub memory : List ℕ
  pub up : b.private_data ≡ some memory
  pub size : length memory ≡ b.capacity
  pub small : b.capacity < 2 ^ 63
  pub kind : b.kind ≡ backend_virtual

-- The byte at an address.
unfoldable pub at : Backend → ℕ → ℕ
at b i = elim b.private_data [ none ↦ 0 | some bytes ↦ get_or bytes i 0 ]

pub write_up :
    (b : Backend) (pos : ℕ) (buf : List ℕ) (len : ℕ) (v : IsMemory b)
    → pos + len ≤ b.capacity
    → virtual_backend_write b pos buf len
      ≡ (ok 0, record b { private_data = some (splice pos (take len buf) v.memory) })
unfolding virtual_backend_write
write_up b pos buf len v h = rw v.up (ground (arith, v.small))

pub discard_up :
    (b : Backend) (pos len : ℕ) (v : IsMemory b)
    → pos + len ≤ b.capacity
    → virtual_backend_discard b pos len
      ≡ (ok 0, record b { private_data = some (splice pos (replicate len 0) v.memory) })
unfolding virtual_backend_discard
discard_up b pos len v h = rw v.up (ground (arith, v.small))

pub read_up :
    (b : Backend) (pos : ℕ) (buf : List ℕ) (len : ℕ) (v : IsMemory b)
    → pos + len ≤ b.capacity
    → virtual_backend_read b pos buf len ≡ (ok 0, splice 0 (take len (drop pos v.memory)) buf)
unfolding virtual_backend_read
read_up b pos buf len v h = rw v.up (ground (arith, v.small))

-- A memory with the bytes of an address range replaced by those of `f`.
abbrev pub patched : (ℕ → ℕ) → ℕ → ℕ → (ℕ → ℕ) → ℕ → ℕ
patched m pos len f i = if leb pos i && ltb i (pos + len) then f (i - pos) else m i

abbrev pub splice_IsMemory :
    (b : Backend) (pos : ℕ) (bs : List ℕ) (v : IsMemory b)
    → IsMemory (record b { private_data = some (splice pos bs v.memory) })
splice_IsMemory b pos bs v = record {
  memory = splice pos bs v.memory;
  up = refl;
  size = length-splice pos bs v.memory ∙ v.size;
  small = v.small;
  kind = v.kind;
}

pub at_up : (b : Backend) (v : IsMemory b) (i : ℕ) → at b i ≡ get_or v.memory i 0
unfolding at
at_up b v i = rw v.up refl

pub get_or-drop : (n : ℕ) (xs : List ℕ) (i d : ℕ) → get_or (drop n xs) i d ≡ get_or xs (n + i) d
get_or-drop zero xs i d = rw zero-add refl
get_or-drop (suc n) [] i d = refl
get_or-drop (suc n) (x ∷ xs) i d = rw suc-add (get_or-drop n xs i d)

pub splice_at :
    (b : Backend) (pos : ℕ) (bs : List ℕ) (f : ℕ → ℕ) (v : IsMemory b)
    → pos + length bs ≤ b.capacity
    → ((i : ℕ) → i < length bs → get_or bs i 0 ≡ f i)
    → at (record b { private_data = some (splice pos bs v.memory) })
      ≡ patched (at b) pos (length bs) f
unfolding at
splice_at b pos bs f v h e = fun_ext λ i.
    get_or-splice pos bs v.memory i 0 (omega (arith, v.size))
    ∙ elim (Bool-cases (leb pos i && ltb i (pos + length bs))) [
      | inl t ↦ rw t (e (i - pos) (ground arith))
      | inr t ↦ rw t (sym (at_up b v i))
    ]

-- A write inside the capacity succeeds and replaces the bytes of its range by those of the buffer,
-- and no other; the backend stays up.
virtual_write_lem :
    (b : Backend) (pos : ℕ) (buf : List ℕ) (len : ℕ)
    → IsMemory b
    → len ≤ length buf
    → pos + len ≤ b.capacity
    → let r = virtual_backend_write b pos buf len in
      (r.0 ≡ ok 0) × IsMemory r.1 × (at r.1 ≡ patched (at b) pos len (λ i. get_or buf i 0))
virtual_write_lem b pos buf len v full h =
    let n : length (take len buf) ≡ len = omega (arith, length-take len buf) in
    rw (write_up b pos buf len v h) (
      refl,
      splice_IsMemory b pos (take len buf) v,
      subst
          (λ k.
            at (record b { private_data = some (splice pos (take len buf) v.memory) })
            ≡ patched (at b) pos k (λ i. get_or buf i 0))
          n
          (splice_at b pos (take len buf) (λ i. get_or buf i 0) v (omega (arith, n))
            (λ i less. get_or-take len buf i 0 (omega (arith, n)))),
    )

-- A discard inside the capacity succeeds and zeroes the bytes of its range, and no other; the backend
-- stays up.
virtual_discard_lem :
    (b : Backend) (pos len : ℕ)
    → IsMemory b
    → pos + len ≤ b.capacity
    → let r = virtual_backend_discard b pos len in
      (r.0 ≡ ok 0) × IsMemory r.1 × (at r.1 ≡ patched (at b) pos len (λ i. 0))
virtual_discard_lem b pos len v h =
    let zeros : List ℕ = replicate len 0 in
    let n : length zeros ≡ len = length-replicate len 0 in
    rw (discard_up b pos len v h) (
      refl,
      splice_IsMemory b pos zeros v,
      subst
          (λ k.
            at (record b { private_data = some (splice pos zeros v.memory) })
            ≡ patched (at b) pos k (λ i. 0))
          n
          (splice_at b pos zeros (λ i. 0) v (omega (arith, n))
            (λ i less. get_or-replicate len i 0)),
    )

-- A read inside the capacity succeeds and puts the bytes of its range, in order, at the start of the
-- buffer; the rest of the buffer stays.
virtual_read_lem :
    (b : Backend) (pos : ℕ) (buf : List ℕ) (len j : ℕ)
    → IsMemory b
    → len ≤ length buf
    → pos + len ≤ b.capacity
    → let r = virtual_backend_read b pos buf len in
      (r.0 ≡ ok 0)
      × (length r.1 ≡ length buf)
      × (get_or r.1 j 0 ≡ (if ltb j len then at b (pos + j) else get_or buf j 0))
virtual_read_lem b pos buf len j v full h =
    let slice = take len (drop pos v.memory) in
    let n : length slice ≡ len =
      omega (arith, length-take len (drop pos v.memory), length-drop pos v.memory, v.size) in
    rw (read_up b pos buf len v h) (
      refl,
      length-splice 0 slice buf,
      rw (get_or-splice 0 slice buf j 0 (omega (arith, n)), n, at_up b v (pos + j))
          (ground (arith, get_or-take len (drop pos v.memory) j 0, get_or-drop pos v.memory j 0)),
    )

-- An access that reaches past the capacity is refused with EINVAL and changes nothing.
virtual_refused :
    (b : Backend) (pos : ℕ) (buf : List ℕ) (len : ℕ)
    → IsMemory b
    → pos < 2 ^ 63
    → len < 2 ^ 63
    → b.capacity < pos + len
    → (virtual_backend_read b pos buf len ≡ (err einval, buf))
      × (virtual_backend_write b pos buf len ≡ (err einval, b))
      × (virtual_backend_discard b pos len ≡ (err einval, b))
unfolding virtual_backend_read virtual_backend_write virtual_backend_discard
virtual_refused b pos buf len v p l h = rw v.up (ground arith, ground arith, ground arith)

-- A virtual backend that is up is a memory: an access inside the capacity succeeds. A write replaces
-- the bytes of its range by those of the buffer and no other, a discard zeroes them and no other, and
-- the backend stays up; a read puts the bytes of its range, in order, at the start of the buffer and
-- keeps the rest of it.
virtual_in_range :
    (b : Backend) (pos : ℕ) (buf : List ℕ) (len j : ℕ)
    → IsMemory b
    → len ≤ length buf
    → pos + len ≤ b.capacity
    → let w = virtual_backend_write b pos buf len in
      let d = virtual_backend_discard b pos len in
      let r = virtual_backend_read b pos buf len in
      ((w.0 ≡ ok 0) × IsMemory w.1 × (at w.1 ≡ patched (at b) pos len (λ i. get_or buf i 0)))
      × ((d.0 ≡ ok 0) × IsMemory d.1 × (at d.1 ≡ patched (at b) pos len (λ i. 0)))
      × ((r.0 ≡ ok 0)
          × (length r.1 ≡ length buf)
          × (get_or r.1 j 0 ≡ (if ltb j len then at b (pos + j) else get_or buf j 0)))
virtual_in_range b pos buf len j v full h = (
  virtual_write_lem b pos buf len v full h,
  virtual_discard_lem b pos len v h,
  virtual_read_lem b pos buf len j v full h,
)
