-- ===== src/Uringblk/Admin/Features.antt =====
-- What the administration commands may change, and how they answer.
use kvm_db.Prelude.{
  ℕ, ◌+◌, ◌*◌, ◌/◌, ◌%◌, ◌^◌, ◌≤◌, ◌<◌, ◌≡◌, refl, ap, ◌∙◌, Bool-cases, ◌⊎◌, inl, inr, Bool, true,
  false, Option, none, some, ltb, ◌==◌, arith,
}
use kvm_db.Prelude.Errno.{einval, ok, err}
use kvm_db.Uringblk.Admin.{
  AdminDevice, UringCmd, LockState, queued, dispatch, uringblk_uring_cmd, is_supported,
  uringblk_cmd_set_features, uringblk_cmd_identify, uringblk_cmd_get_limits,
  uringblk_cmd_get_geometry, uringblk_cmd_get_features, uringblk_cmd_get_stats,
}
use kvm_db.Uringblk.Abi.{Payload}

abbrev pub bit : Bool → ℕ → ℕ
bit true n = n
bit false n = 0

-- A feature word: write cache, FUA, flush, discard, write zeroes and polling, each 0 or 1.
abbrev pub feature_word : Bool → Bool → Bool → Bool → Bool → Bool → ℕ
feature_word cache fua flush discard zeroes polling =
    bit cache 1 + bit fua 2 + bit flush 4 + bit discard 8 + bit zeroes 16 + bit polling 64

-- A sum of the six supported flags.
pub record IsFeatures (f : ℕ) : Type 0 where
  pub cache : Bool
  pub fua : Bool
  pub flush : Bool
  pub discard : Bool
  pub zeroes : Bool
  pub polling : Bool
  pub is_word : f ≡ feature_word cache fua flush discard zeroes polling

abbrev odd : ℕ → Bool
odd n = n % 2 == 1

bit-odd : (n k : ℕ) → bit (odd n) k ≡ n % 2 * k
bit-odd n k = ground arith

supported_word : (f : ℕ) → is_supported f ≡ true → IsFeatures f
supported_word f h =
    let bounds : (f < 2 ^ 7) × (f / 2 ^ 5 % 2 ≡ 0) = ground arith in
    record {
      cache = odd f;
      fua = odd (f / 2);
      flush = odd (f / 4);
      discard = odd (f / 8);
      zeroes = odd (f / 16);
      polling = odd (f / 64);
      is_word =
          rw
            (
              bit-odd f 1,
              bit-odd (f / 2) 2,
              bit-odd (f / 4) 4,
              bit-odd (f / 8) 8,
              bit-odd (f / 16) 16,
              bit-odd (f / 64) 64,
            )
            (omega (arith, bounds.0, bounds.1));
    }

bit_ways : (b : Bool) (k : ℕ) → (bit b k ≡ 0) ⊎ (bit b k ≡ k)
bit_ways true k = inr refl
bit_ways false k = inl refl

word_supported : (f : ℕ) → IsFeatures f → is_supported f ≡ true
word_supported f w =
    let low : f < 2 ^ 7 = omega (
      arith,
      w.is_word,
      bit_ways w.cache 1,
      bit_ways w.fua 2,
      bit_ways w.flush 4,
      bit_ways w.discard 8,
      bit_ways w.zeroes 16,
      bit_ways w.polling 64,
    ) in
    let clear : f / 2 ^ 5 % 2 ≡ 0 = omega (
      arith,
      w.is_word,
      bit_ways w.cache 1,
      bit_ways w.fua 2,
      bit_ways w.flush 4,
      bit_ways w.discard 8,
      bit_ways w.zeroes 16,
      bit_ways w.polling 64,
    ) in
    ground (arith, low, clear)

-- SET_FEATURES with an argument of eight bytes that can be read takes exactly the sums of the six
-- supported flags, as the device's features; any other word gives EINVAL. Nothing else of the device
-- changes.
pub set_features_lem :
    (dev : AdminDevice) (f len : ℕ)
    → 8 ≤ len
    → (IsFeatures f
        × (uringblk_cmd_set_features dev (some f) len ≡ (ok 0, record dev { features = f })))
      ⊎ ((¬ IsFeatures f) × (uringblk_cmd_set_features dev (some f) len ≡ (err einval, dev)))
unfolding uringblk_cmd_set_features
set_features_lem dev f len h = elim (Bool-cases (is_supported f)) [
  | inl e ↦ inl (supported_word f e, ground arith)
  | inr e ↦ inr (λ w. let t = word_supported f w in cc, ground arith)
]

set_keeps :
    (dev : AdminDevice) (argument : Option ℕ) (len : ℕ)
    → is_supported dev.features ≡ true
    → (f : ℕ) × (is_supported f ≡ true)
      × ((uringblk_cmd_set_features dev argument len).1 ≡ record dev { features = f })
unfolding uringblk_cmd_set_features
set_keeps dev none len v = (dev.features, v, ground arith)
set_keeps dev (some f) len v = elim (Bool-cases (ltb len 8)) [
  | inl e ↦ (dev.features, v, rw e refl)
  | inr e ↦ elim (Bool-cases (is_supported f)) [
    | inl t ↦ (f, t, rw (e, t) refl)
    | inr t ↦ (dev.features, v, rw (e, t) refl)
  ]
]

dispatch_ways :
    (lbs : ℕ) (dev : AdminDevice) (c : UringCmd)
    → ((dispatch lbs dev c).1 ≡ dev)
      ⊎ ((dispatch lbs dev c).1 ≡ (uringblk_cmd_set_features dev c.argument c.len).1)
unfolding dispatch
dispatch_ways lbs dev c = ground arith

cmd_ways :
    (lbs : ℕ) (lock : LockState) (dev : AdminDevice) (c : UringCmd)
    → ((uringblk_uring_cmd lbs lock (some dev) c).1 ≡ some dev)
      ⊎ ((uringblk_uring_cmd lbs lock (some dev) c).1 ≡ some (dispatch lbs dev c).1)
unfolding uringblk_uring_cmd
cmd_ways lbs lock dev c = ground arith

-- Whatever the command and however it ends, the device's features stay supported, and nothing else of
-- the device changes.
pub uring_cmd-features :
    (lbs : ℕ) (lock : LockState) (dev : AdminDevice) (c : UringCmd)
    → is_supported dev.features ≡ true
    → (f : ℕ) × (is_supported f ≡ true)
      × ((uringblk_uring_cmd lbs lock (some dev) c).1 ≡ some (record dev { features = f }))
uring_cmd-features lbs lock dev c v = elim (cmd_ways lbs lock dev c) [
  | inl e ↦ (dev.features, v, e)
  | inr e ↦ elim (dispatch_ways lbs dev c) [
    | inl t ↦ (dev.features, v, e ∙ ap some t)
    | inr t ↦ let (f, w, u) = set_keeps dev c.argument c.len v in (f, w, e ∙ ap some (t ∙ u))
  ]
]

-- A command that succeeds copies out no more bytes than the caller's length, which is at most 4096.
answer_fits :
    (lbs : ℕ) (lock : LockState) (dev : AdminDevice) (c : UringCmd) (n : ℕ) (p : Payload)
    → (uringblk_uring_cmd lbs lock (some dev) c).0 ≡ queued (ok n) p
    → (n ≤ c.len) × (c.len ≤ 4096)
unfolding uringblk_uring_cmd dispatch uringblk_cmd_identify uringblk_cmd_get_limits
    uringblk_cmd_get_geometry uringblk_cmd_get_features uringblk_cmd_get_stats
    uringblk_cmd_set_features
answer_fits lbs lock dev c n p e = ground arith
