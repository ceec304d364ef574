-- ===== src/Uringblk/Load/Ignored.antt =====
-- The list of devices against the devices that loading sets up.
use kvm_db.Prelude.{ℕ, ◌<◌, ◌≡◌, ◌≢◌, inl, inr, Bool, none, some, List, [], ◌∷◌, length, arith}
use kvm_db.Prelude.Errno.{ok}
use kvm_db.Uringblk.Backend.{Backend}
use kvm_db.Uringblk.Device.Open.{device_backend_init}
use kvm_db.Uringblk.Config.{parse_device_list}
use kvm_db.Uringblk.Init.{init_backend}
use kvm_db.Uringblk.Instance.{ModuleParams, InitEnv}
use kvm_db.Uringblk.Load.{not_loaded, uringblk_init}
use kvm_db.Uringblk.Paths.{LoadEnv, DevicePaths, device_paths}
use kvm_db.Uringblk.Load.Whole.{load_ends}

no_path :
    (p : ModuleParams) (env : InitEnv) (b : Backend)
    → p.backend_type ≢ 0
    → p.backend_device ≡ []
    → init_backend p env ≢ ok b
unfolding init_backend device_backend_init
no_path p env b kind nil e = ground (arith, kind, nil)

parsed_text :
    (copied array : Bool) (memory : ℕ → Bool) (text : List ℕ) (found : List (List ℕ))
    → parse_device_list copied array memory (some text) ≡ ok (some found)
    → 0 < length text
unfolding parse_device_list
parsed_text copied array memory text found e = ground arith

list_kind :
    (p : ModuleParams) (env : LoadEnv) (d : DevicePaths) (path : List ℕ) (paths : List (List ℕ))
    → 0 < p.max_devices
    → parse_device_list env.list_copied env.list_array env.entry_copied (some p.devices)
      ≡ ok (some (path ∷ paths))
    → device_paths p env ≡ ok d
    → d.kind ≢ 0
unfolding device_paths
list_kind p env d path paths some_device list e k =
    let listed : 0 < length p.devices =
      parsed_text env.list_copied env.list_array env.entry_copied p.devices (path ∷ paths) list in
    ground (arith, list, listed)

-- A list of devices from which a path is parsed does not name the devices that are used: with a
-- maximum of at least one device, and the parameter backend_device empty, loading fails whatever the
-- list holds.
pub list_ignored :
    (p : ModuleParams) (env : LoadEnv) (path : List ℕ) (paths : List (List ℕ))
    → 0 < p.max_devices
    → parse_device_list env.list_copied env.list_array env.entry_copied (some p.devices)
      ≡ ok (some (path ∷ paths))
    → p.backend_device ≡ []
    → (uringblk_init p env (not_loaded p.backend_type)).0 ≢ none
list_ignored p env path paths some_device list nil up = elim (load_ends p env some_device) [
  | inl ((e, failed), m) ↦ ground (arith, failed, up)
  | inr (inl (trapped, m)) ↦ ground (arith, trapped, up)
  | inr (inr (u, m)) ↦
      no_path (record p { backend_type = m.paths.kind }) (env.init 0) m.backend
        (list_kind p env m.paths path paths some_device list m.parsed) nil m.opened
]
