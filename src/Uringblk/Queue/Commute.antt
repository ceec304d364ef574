-- ===== src/Uringblk/Queue/Commute.antt =====
-- Requests of two hardware queues, for which `uringblk_queue_rq` takes no lock around the memory: which
-- of two comes first does not matter where their ranges are apart.
use kvm_db.Prelude.{
  fun_ext, ℕ, zero, suc, ◌+◌, ◌*◌, ◌^◌, ◌≤◌, ◌<◌, ◌≡◌, refl, sym, ap, ◌∙◌, ◌⊎◌, inl, inr, ◌&&◌,
  Bool, Bool-cases, List, [], ◌∷◌, length, get_or, ltb, leb, arith,
}
use kvm_db.Prelude.Slice.{bytes}
use kvm_db.Uringblk.Backend.Memory.{IsMemory, at, patched}
use kvm_db.Uringblk.Queue.Machine.{loaded, serve_inside, serve, queue_all, IsSound}
use kvm_db.Uringblk.Queue.Refines.{disk_refines}
use kvm_db.Uringblk.Device.{AsyncEnv}
use kvm_db.Uringblk.Request.{
  Request, UringblkDisk, BlkStatus, sts_ok, ReqOp, op_read, op_write, op_flush, op_discard,
  op_drv_in, op_drv_out, op_other,
}

-- An address is outside a range.
abbrev Outside : ℕ → ℕ → ℕ → Type 0
Outside i pos n = (i < pos) ⊎ (pos + n ≤ i)

patched_beyond : (f g : ℕ → ℕ) (pos n i : ℕ) → Outside i pos n → patched f pos n g i ≡ f i
patched_beyond f g pos n i h = ground (arith, h)

patched_local :
    (f f' g : ℕ → ℕ) (pos n i : ℕ) → f i ≡ f' i → patched f pos n g i ≡ patched f' pos n g i
patched_local f f' g pos n i h = ground (arith, h)

loaded_local :
    (f g : ℕ → ℕ) (pos n : ℕ)
    → ((i : ℕ) → pos ≤ i → i < pos + n → f i ≡ g i)
    → loaded f pos n ≡ loaded g pos n
loaded_local f g pos zero h = refl
loaded_local f g pos (suc n) h =
    ap (λ x. x ∷ loaded f (pos + 1) n) (h pos (omega arith) (omega arith))
    ∙ ap (λ l. g pos ∷ l)
        (loaded_local f g (pos + 1) n (λ i low high. h i (omega arith) (omega arith)))

module _ (capacity : ℕ) (op : ReqOp) (pos : ℕ) (content : List ℕ) where
  abbrev inside : Bool
  inside = ltb pos capacity && leb (pos + length content) capacity

  inside_kept :
      (f : ℕ → ℕ) (op : ReqOp) (i : ℕ)
      → Outside i pos (length content)
      → (serve_inside f op pos content).1 i ≡ f i
  inside_kept f op_read i h = refl
  inside_kept f op_write i h = patched_beyond f (λ x. get_or content x 0) pos (length content) i h
  inside_kept f op_flush i h = refl
  inside_kept f op_discard i h = patched_beyond f (λ x. 0) pos (length content) i h
  inside_kept f op_drv_in i h = refl
  inside_kept f op_drv_out i h = refl
  inside_kept f op_other i h = refl

  -- A request changes only its range.
  serve_kept :
      (f : ℕ → ℕ) (i : ℕ)
      → Outside i pos (length content)
      → (serve capacity f op pos content).1 i ≡ f i
  serve_kept f i h = elim (Bool-cases inside) [
    | inl t ↦ rw t (inside_kept f op i h)
    | inr t ↦ rw t refl
  ]

  inside_local :
      (f g : ℕ → ℕ) (op : ReqOp) (i : ℕ)
      → f i ≡ g i
      → (serve_inside f op pos content).1 i ≡ (serve_inside g op pos content).1 i
  inside_local f g op_read i h = h
  inside_local f g op_write i h =
      patched_local f g (λ x. get_or content x 0) pos (length content) i h
  inside_local f g op_flush i h = h
  inside_local f g op_discard i h = patched_local f g (λ x. 0) pos (length content) i h
  inside_local f g op_drv_in i h = h
  inside_local f g op_drv_out i h = h
  inside_local f g op_other i h = h

  -- What a request leaves at an address depends on nothing but what was there.
  serve_local :
      (f g : ℕ → ℕ) (i : ℕ)
      → f i ≡ g i
      → (serve capacity f op pos content).1 i ≡ (serve capacity g op pos content).1 i
  serve_local f g i h = elim (Bool-cases inside) [
    | inl t ↦ rw t (inside_local f g op i h)
    | inr t ↦ rw t h
  ]

  inside_answer :
      (f g : ℕ → ℕ) (op : ReqOp)
      → ((i : ℕ) → pos ≤ i → i < pos + length content → f i ≡ g i)
      → (serve_inside f op pos content).0 ≡ (serve_inside g op pos content).0
  inside_answer f g op_read h = ap (λ l. (sts_ok ∷ [], l)) (loaded_local f g pos (length content) h)
  inside_answer f g op_write h = refl
  inside_answer f g op_flush h = refl
  inside_answer f g op_discard h = refl
  inside_answer f g op_drv_in h = refl
  inside_answer f g op_drv_out h = refl
  inside_answer f g op_other h = refl

  -- An answer depends on nothing but the request's range.
  serve_answer :
      (f g : ℕ → ℕ)
      → ((i : ℕ) → pos ≤ i → i < pos + length content → f i ≡ g i)
      → (serve capacity f op pos content).0 ≡ (serve capacity g op pos content).0
  serve_answer f g h = elim (Bool-cases inside) [
    | inl t ↦ rw t (inside_answer f g op h)
    | inr t ↦ rw t refl
  ]

-- Two ranges without a common byte.
abbrev pub Apart : ℕ → ℕ → ℕ → ℕ → Type 0
Apart p n q m = (p + n ≤ q) ⊎ (q + m ≤ p)

either_range : (p n q m i : ℕ) → Apart p n q m → Outside i p n ⊎ Outside i q m
either_range p n q m i (inl h) = elim (Bool-cases (ltb i q)) [
  | inl t ↦ inr (inl (ground (arith, t)))
  | inr t ↦ inl (inr (ground (arith, h, t)))
]
either_range p n q m i (inr h) = elim (Bool-cases (ltb i p)) [
  | inl t ↦ inl (inl (ground (arith, t)))
  | inr t ↦ inr (inr (ground (arith, h, t)))
]

other_range : (p n q m i : ℕ) → Apart p n q m → p ≤ i → i < p + n → Outside i q m
other_range p n q m i (inl h) low high = inl (omega (arith, h, high))
other_range p n q m i (inr h) low high = inr (omega (arith, h, low))

module _ (capacity : ℕ) (f : ℕ → ℕ) (op op' : ReqOp) (p q : ℕ) (xs ys : List ℕ)
    (apart : Apart p (length xs) q (length ys)) where
  abbrev one : (ℕ → ℕ) → (List BlkStatus × List ℕ) × (ℕ → ℕ)
  one g = serve capacity g op p xs

  abbrev other : (ℕ → ℕ) → (List BlkStatus × List ℕ) × (ℕ → ℕ)
  other g = serve capacity g op' q ys

  first_same : (one f).0 ≡ (one (other f).1).0
  first_same = serve_answer capacity op p xs f (other f).1 (λ i low high.
      sym (
        serve_kept capacity op' q ys f i
          (other_range p (length xs) q (length ys) i apart low high)))

  second_same : (other (one f).1).0 ≡ (other f).0
  second_same = serve_answer capacity op' q ys (one f).1 f (λ i low high.
      serve_kept capacity op p xs f i
        (other_range q (length ys) p (length xs) i (ground (arith, apart)) low high))

  same_disk : (other (one f).1).1 ≡ (one (other f).1).1
  same_disk = fun_ext λ i. elim (either_range p (length xs) q (length ys) i apart) [
    | inl h ↦
        serve_local capacity op' q ys (one f).1 f i (serve_kept capacity op p xs f i h)
        ∙ sym (serve_kept capacity op p xs (other f).1 i h)
    | inr h ↦
        serve_kept capacity op' q ys (one f).1 i h
        ∙ sym (serve_local capacity op p xs (other f).1 f i (serve_kept capacity op' q ys f i h))
  ]

-- Two requests to a virtual disk of less than 2 ^ 62 bytes (each as long as its segments, shorter than
-- 4 GiB and at a position that a file can have) whose ranges have no byte in common: whichever of them
-- the driver serves first, each is answered the same, and the disk holds the same bytes afterwards.
pub two_queues :
    (lbs : ℕ) (env : AsyncEnv) (d : UringblkDisk) (rq rq' : Request)
    → IsMemory d.backend
    → d.backend.capacity < 2 ^ 62
    → IsSound lbs rq
    → IsSound lbs rq'
    → Apart (rq.sector * lbs) rq.size (rq'.sector * lbs) rq'.size
    → let r = queue_all lbs env d (rq ∷ rq' ∷ []) in
      let r' = queue_all lbs env d (rq' ∷ rq ∷ []) in
      (x : List BlkStatus × List ℕ) × (y : List BlkStatus × List ℕ) × (r.0 ≡ x ∷ y ∷ [])
      × (r'.0 ≡ y ∷ x ∷ [])
      × (at r.1.backend ≡ at r'.1.backend)
two_queues lbs env d rq rq' v small s s' apart =
    let cap = d.backend.capacity in
    let p = rq.sector * lbs in
    let q = rq'.sector * lbs in
    let xs = bytes rq.buffers in
    let ys = bytes rq'.buffers in
    let far : Apart p (length xs) q (length ys) = rw (← s.sum, ← s'.sum) apart in
    let (answers, up, disk) = disk_refines lbs env d (rq ∷ rq' ∷ []) v small (s, (s', tt)) in
    let (answers', up', disk') = disk_refines lbs env d (rq' ∷ rq ∷ []) v small (s', (s, tt)) in
    let x = (serve cap (at d.backend) rq.op p xs).0 in
    let y = (serve cap (at d.backend) rq'.op q ys).0 in
    (
      x,
      y,
      answers ∙ ap (λ a. x ∷ a ∷ []) (second_same cap (at d.backend) rq.op rq'.op p q xs ys far),
      answers'
          ∙ ap (λ a. y ∷ a ∷ []) (sym (first_same cap (at d.backend) rq.op rq'.op p q xs ys far)),
      disk ∙ same_disk cap (at d.backend) rq.op rq'.op p q xs ys far ∙ sym disk',
    )
