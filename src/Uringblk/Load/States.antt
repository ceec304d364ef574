-- ===== src/Uringblk/Load/States.antt =====
-- The states in which loading ends, and its first and last part.
use kvm_db.Prelude.{
  ℕ, ◌≡◌, ◌≢◌, refl, ◌⊎◌, inl, inr, Bool, true, false, ◌&&◌, Option, none, some, List, [], ◌∷◌,
  Option-cases, Bool-cases, arith,
}
use kvm_db.Prelude.Errno.{Errno, enomem, Result-cases, ok}
use kvm_db.Uringblk.Backend.{Backend}
use kvm_db.Uringblk.Config.{parse_device_list}
use kvm_db.Uringblk.Init.{error, divide_error, init_backend, uringblk_init_device}
use kvm_db.Uringblk.Instance.{ModuleParams, UringblkDevice}
use kvm_db.Uringblk.Init.Released.{IsReleased, IsReady, init_device_lem}
use kvm_db.Uringblk.Load.{UringblkModule, not_loaded, init_devices, uringblk_init_admin_dev}
use kvm_db.Uringblk.Paths.{LoadEnv, DevicePaths, device_paths, configured, stray_path}

abbrev pub is_none : Option Errno → Bool
is_none none = true
is_none (some e) = false

-- Whether the administration device is registered.
abbrev pub admin_up : LoadEnv → Bool
admin_up env = is_none env.alloc_chrdev_region && is_none env.cdev_add && is_none env.class_create

-- The state between the administration device's registration and the devices.
abbrev pub with_admin : Bool → ℕ → List UringblkDevice → UringblkModule
with_admin up kind freed = record (not_loaded kind) {
  region = up;
  cdev = up;
  class = up;
  freed = freed;
}

abbrev pub AllReleased : List UringblkDevice → Type 0
AllReleased [] = Unit
AllReleased (dev ∷ devs) = IsReleased dev × AllReleased devs

-- The list of devices is not empty and parses to no path.
abbrev pub IsBlankList : ModuleParams → LoadEnv → Type 0
IsBlankList p env =
    parse_device_list env.list_copied env.list_array env.entry_copied (some p.devices)
    ≡ ok (some [])

-- After a failure: no major number, no array of devices, and every device that was freed had been
-- released; the administration device stays registered where that had succeeded.
pub record IsFailed (p : ModuleParams) (env : LoadEnv) (m : UringblkModule) : Type 0 where
  pub kind : ℕ
  pub freed : List UringblkDevice
  pub released : AllReleased freed
  pub is_state : m ≡ record (with_admin (admin_up env) kind freed) { wild = m.wild }
  pub blank : m.wild ≡ true → IsBlankList p env

-- Loading has stopped at the division: the block size is 0, and the major number and the device, with
-- its tag set and its disk, are held.
pub record IsTrapped (p : ModuleParams) (m : UringblkModule) : Type 0 where
  pub block : p.logical_block_size ≡ 0
  pub registered : m.blkdev ≢ none
  pub device : UringblkDevice
  pub in_slot : m.devices ≡ some (device ∷ [])
  pub tagged : device.tag_set ≡ true
  pub disk : device.disk ≢ none

-- Loaded with one device, which is up; the list of devices may have changed the backend's type.
pub record IsLoaded (p : ModuleParams) (env : LoadEnv) (m : UringblkModule) : Type 0 where
  pub major : ℕ
  pub paths : DevicePaths
  pub device : UringblkDevice
  pub backend : Backend
  pub parsed : device_paths p env ≡ ok paths
  pub opened : init_backend (record p { backend_type = paths.kind }) (env.init 0) ≡ ok backend
  pub ready : IsReady (record p { backend_type = paths.kind }) 0 backend device
  pub is_state : m ≡ record (with_admin true paths.kind []) {
    blkdev = some major;
    devices = some (device ∷ []);
    wild = m.wild;
  }
  pub blank : m.wild ≡ true → IsBlankList p env

pub admin_lem :
    (env : LoadEnv) (kind : ℕ)
    → let r = uringblk_init_admin_dev env (not_loaded kind) in
      ((e : Errno) × (r ≡ (some e, with_admin (admin_up env) kind [])))
      ⊎ ((r ≡ (none, with_admin true kind [])) × (admin_up env ≡ true))
unfolding uringblk_init_admin_dev
admin_lem env kind = elim (Option-cases env.alloc_chrdev_region) [
  | inr (e, a) ↦ rw a (inl (e, refl))
  | inl a ↦ elim (Option-cases env.cdev_add) [
    | inr (e, c) ↦ rw (a, c) (inl (e, refl))
    | inl c ↦ elim (Option-cases env.class_create) [
      | inr (e, d) ↦ rw (a, c, d) (inl (e, refl))
      | inl d ↦ rw (a, c, d) (inr (refl, refl))
    ]
  ]
]

-- The loop for one device.
pub loop_lem :
    (p : ModuleParams) (env : LoadEnv) (d : DevicePaths)
    → let loop = init_devices p env d 0 1 [] in
      (((e : Errno) × (loop.result ≡ some (error e)))
        × (loop.ready ≡ [])
        × AllReleased loop.failed
        × (loop.stray ≡ true → stray_path d 0 ≡ true))
      ⊎ ((p.logical_block_size ≡ 0)
          × (loop.result ≡ some divide_error)
          × (dev : UringblkDevice) × (loop.ready ≡ dev ∷ [])
          × (dev.tag_set ≡ true)
          × (dev.disk ≢ none))
      ⊎ ((loop.result ≡ none)
          × (dev : UringblkDevice) × (b : Backend) × (init_backend p (env.init 0) ≡ ok b)
          × IsReady p 0 b dev
          × (loop.ready ≡ dev ∷ [])
          × (loop.stray ≡ true → stray_path d 0 ≡ true))
unfolding init_devices
loop_lem p env d = elim (Bool-cases (env.allocated 0)) [
  | inr a ↦ rw a (inl ((enomem, refl), refl, tt, λ s. ground (arith, s)))
  | inl a ↦
      let r = uringblk_init_device p (env.init 0) (configured p d 0) 0 in
      elim (init_device_lem p (env.init 0) (configured p d 0) 0) [
        | inl ((e, n), released) ↦ rw (a, n) (inl ((e, refl), refl, (released, tt), λ s. s))
        | inr (inl (z, n, tagged, disk)) ↦ rw (a, n) (inr (inl (z, refl, r.1, refl, tagged, disk)))
        | inr (inr (b, i, n, ready)) ↦
            rw (a, n) (inr (inr (refl, r.1, b, i, ready, refl, λ s. ground (arith, s))))
      ]
]

-- A stray path is read only for a list that parses to none.
pub stray-IsBlankList :
    (p : ModuleParams) (env : LoadEnv) (d : DevicePaths)
    → device_paths p env ≡ ok d
    → stray_path d 0 ≡ true
    → IsBlankList p env
unfolding device_paths
stray-IsBlankList p env d h stray =
    elim (Result-cases
      (parse_device_list env.list_copied env.list_array env.entry_copied (some p.devices))) [
        | inl (e, l) ↦ ground (arith, l, h, stray)
        | inr (list, l) ↦ ground (arith, l, h, stray)
      ]
