-- ===== src/Prelude/Errno.antt =====
-- The error numbers that the modules return, and a call's result: a value or an error number.
use mathlib.Core.Path.{◌≡◌, refl}
use mathlib.Core.Logic.{◌⊎◌, inl, inr}

pub data Errno : Type 0 where
  einval enomem efault enodata enotty enodev eagain ecanceled eopnotsupp erestartsys eio
        enametoolong enoent eacces erofs ebusy ebadf e2big enosys :
      Errno

pub data Result {ℓ} (A : Type ℓ) : Type ℓ where
  ok : A → Result A
  err : Errno → Result A

-- To split on a result and keep the equation.
pub Result-cases {ℓ} :
    {A : Type ℓ} (r : Result A) → ((e : Errno) × (r ≡ err e)) ⊎ ((a : A) × (r ≡ ok a))
Result-cases (err e) = inl (e, refl)
Result-cases (ok a) = inr (a, refl)
