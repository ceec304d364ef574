-- ===== src/Uringblk/Load/Virtual.antt =====
-- The device of a driver that was loaded with a virtual backend.
use kvm_db.Prelude.{
  ℕ, ◌*◌, ◌^◌, ◌<◌, ◌≡◌, refl, ap, fun_ext, ◌∙◌, inl, inr, true, none, some, [], replicate,
  length-replicate, get_or-replicate, arith,
}
use kvm_db.Prelude.Errno.{ok}
use kvm_db.Uringblk.Backend.{Backend, backend_virtual}
use kvm_db.Uringblk.Backend.Memory.{IsMemory, at}
use kvm_db.Uringblk.Admin.{is_supported}
use kvm_db.Uringblk.Instance.{ModuleParams, UringblkDevice, module_config}
use kvm_db.Uringblk.Init.Released.{initial_supported, init_virtual}
use kvm_db.Uringblk.Load.{not_loaded, uringblk_init, uringblk_admin_open, opened}
use kvm_db.Uringblk.Paths.{LoadEnv, DevicePaths, device_paths}
use kvm_db.Uringblk.Load.Whole.{load_ends}

abbrev pub zeroed : ℕ → Backend
zeroed capacity = record {
  kind = backend_virtual;
  private_data = some (replicate capacity 0);
  capacity = capacity;
}

pub zeroed-IsMemory : (capacity : ℕ) → capacity < 2 ^ 63 → IsMemory (zeroed capacity)
zeroed-IsMemory capacity small = record {
  memory = replicate capacity 0;
  up = refl;
  size = length-replicate capacity 0;
  small = small;
  kind = refl;
}

at-zeroed : (capacity : ℕ) → at (zeroed capacity) ≡ (λ i. 0)
unfolding at
at-zeroed capacity = fun_ext λ i. get_or-replicate capacity i 0

virtual_kind :
    (p : ModuleParams) (env : LoadEnv) (d : DevicePaths)
    → p.backend_type ≡ 0
    → p.devices ≡ []
    → device_paths p env ≡ ok d
    → d.kind ≡ 0
unfolding device_paths
virtual_kind p env d kind nil e = ground (arith, kind, nil)

-- A driver that was loaded with a virtual backend, without a list of devices and with a maximum of at
-- least one device, serves the administration device number 0 by a device whose backend is a memory of
-- `capacity_mb` MiB, a number of 32 bits, of which every byte is zero, and whose features are
-- supported.
pub loaded_virtual :
    (p : ModuleParams) (env : LoadEnv)
    → p.backend_type ≡ 0
    → p.devices ≡ []
    → p.capacity_mb < 2 ^ 32
    → 0 < p.max_devices
    → (uringblk_init p env (not_loaded p.backend_type)).0 ≡ none
    → (dev : UringblkDevice) × (b : Backend) × (uringblk_admin_open
          (uringblk_init p env (not_loaded p.backend_type)).1
          0
        ≡ opened dev)
      × (dev.backend ≡ some b)
      × IsMemory b
      × (b.capacity ≡ p.capacity_mb * 2 ^ 20)
      × (at b ≡ (λ i. 0))
      × (is_supported dev.features ≡ true)
unfolding uringblk_admin_open
loaded_virtual p env kind nil small some_device up = elim (load_ends p env some_device) [
  | inl ((e, failed), m) ↦ absurd (ground (arith, failed, up))
  | inr (inl (trapped, m)) ↦ absurd (ground (arith, trapped, up))
  | inr (inr (u, m)) ↦
      let typed = virtual_kind p env m.paths kind nil m.parsed in
      let b : m.backend ≡ zeroed (p.capacity_mb * 2 ^ 20) =
        init_virtual (record p { backend_type = m.paths.kind }) (env.init 0) m.backend typed small
          m.opened in
      (
        m.device,
        m.backend,
        rw m.is_state refl,
        ap (λ (x : UringblkDevice). x.backend) m.ready.is_device,
        rw b (zeroed-IsMemory (p.capacity_mb * 2 ^ 20) (omega (arith, small))),
        rw b refl,
        rw b (at-zeroed (p.capacity_mb * 2 ^ 20)),
        ap (λ (x : UringblkDevice). is_supported x.features) m.ready.is_device
            ∙ initial_supported (module_config p),
      )
]
