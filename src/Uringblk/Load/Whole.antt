-- ===== src/Uringblk/Load/Whole.antt =====
-- What loading leaves and unloading takes back.
use kvm_db.Prelude.{
  ℕ, ◌<◌, ◌≡◌, refl, ap, ◌⊎◌, inl, inr, true, Option, none, some, [], ◌∷◌, Bool-cases, arith,
}
use kvm_db.Prelude.Errno.{Errno, enomem, Result-cases, ok}
use kvm_db.Uringblk.Config.{validate_backend_config}
use kvm_db.Uringblk.Init.{Stop, error, divide_error, uringblk_cleanup_device}
use kvm_db.Uringblk.Instance.{ModuleParams, UringblkDevice}
use kvm_db.Uringblk.Init.Released.{IsReleased, cleanup-IsReleased}
use kvm_db.Uringblk.Load.{
  UringblkModule, not_loaded, init_devices, init_registered, init_validated, uringblk_init,
  uringblk_exit,
}
use kvm_db.Uringblk.Paths.{LoadEnv, DevicePaths, device_paths, device_count}
use kvm_db.Uringblk.Load.Count.{one_device}
use kvm_db.Uringblk.Load.States.{
  stray-IsBlankList, admin_up, with_admin, IsFailed, IsTrapped, IsLoaded, admin_lem, loop_lem,
}

abbrev IsEnd : ModuleParams → LoadEnv → Option Stop × UringblkModule → Type 0
IsEnd p env r =
    (((e : Errno) × (r.0 ≡ some (error e))) × IsFailed p env r.1)
    ⊎ ((r.0 ≡ some divide_error) × IsTrapped p r.1)
    ⊎ ((r.0 ≡ none) × IsLoaded p env r.1)

failed_lem :
    (p : ModuleParams) (env : LoadEnv) (e : Errno) (kind : ℕ)
    → admin_up env ≡ true
    → IsEnd p env (some (error e), with_admin true kind [])
failed_lem p env e kind up = inl (
  (e, refl),
  record {
    kind = kind;
    freed = [];
    released = tt;
    is_state = rw up refl;
    blank = λ w. ground (arith, w);
  },
)

-- Where the array is allocated.
looped_lem :
    (p : ModuleParams) (env : LoadEnv) (d : DevicePaths) (major : ℕ)
    → device_paths p env ≡ ok d
    → device_count p d ≡ 1
    → env.device_array ≡ true
    → admin_up env ≡ true
    → IsEnd p env (init_registered p env (with_admin true p.backend_type []) major)
unfolding init_registered
looped_lem p env d major h one a up =
    let p' : ModuleParams = record p { backend_type = d.kind } in
    let s = with_admin true p.backend_type [] in
    let typed : UringblkModule = record s { backend_type = d.kind } in
    let loop = init_devices p' env d 0 1 [] in
    elim (loop_lem p' env d) [
      | inl ((e, n), nil, released, stray) ↦
          let ends : init_registered p env s major
              ≡ (some (error e), record typed { freed = loop.failed; wild = loop.stray }) =
            simp (init_registered, h, one, a, n, nil) in
          rw ends (
            inl (
              (e, refl),
              record {
                kind = d.kind;
                freed = loop.failed;
                released = released;
                is_state = rw up refl;
                blank = λ w. stray-IsBlankList p env d h (stray w);
              },
            ))
      | inr (inl (z, n, dev, list, tagged, disk)) ↦
          let ends : init_registered p env s major ≡ (
            some divide_error,
            record typed { blkdev = some major; devices = some (dev ∷ []); wild = loop.stray },
          ) =
            simp (init_registered, h, one, a, n, list) in
          rw ends (
            inr (
              inl (
                refl,
                record {
                  block = z;
                  registered = ground arith;
                  device = dev;
                  in_slot = refl;
                  tagged = tagged;
                  disk = disk;
                },
              )))
      | inr (inr (n, dev, b, i, ready, list, stray)) ↦
          let ends : init_registered p env s major ≡ (
            none,
            record typed { blkdev = some major; devices = some (dev ∷ []); wild = loop.stray },
          ) =
            simp (init_registered, h, one, a, n, list) in
          rw ends (
            inr (
              inr (
                refl,
                record {
                  major = major;
                  paths = d;
                  device = dev;
                  backend = b;
                  parsed = h;
                  opened = i;
                  ready = ready;
                  is_state = refl;
                  blank = λ w. stray-IsBlankList p env d h (stray w);
                },
              )))
    ]

registered_lem :
    (p : ModuleParams) (env : LoadEnv) (major : ℕ)
    → 0 < p.max_devices
    → admin_up env ≡ true
    → IsEnd p env (init_registered p env (with_admin true p.backend_type []) major)
unfolding init_registered
registered_lem p env major some_device up = elim (Result-cases (device_paths p env)) [
  | inl (e, h) ↦
      let ends : init_registered p env s major ≡ (some (error e), s) = simp (init_registered, h) in
      rw ends (failed_lem p env e p.backend_type up)
  | inr (d, h) ↦
      let one : device_count p d ≡ 1 = omega (arith, one_device p env d h) in
      let typed : UringblkModule = record s { backend_type = d.kind } in
      elim (Bool-cases env.device_array) [
        | inr a ↦
            let ends : init_registered p env s major ≡ (some (error enomem), typed) =
              simp (init_registered, h, a) in
            rw ends (failed_lem p env enomem d.kind up)
        | inl a ↦ looped_lem p env d major h one a up
      ]
]
  where
    s : UringblkModule
    s = with_admin true p.backend_type []

validated_refused :
    (p : ModuleParams) (env : LoadEnv) (e : Errno) (s : UringblkModule)
    → init_validated p env (some e, s) ≡ (some (error e), s)
unfolding init_validated
validated_refused p env e s = refl

validated_lem :
    (p : ModuleParams) (env : LoadEnv)
    → 0 < p.max_devices
    → admin_up env ≡ true
    → IsEnd p env (init_validated p env (none, with_admin true p.backend_type []))
unfolding init_validated
validated_lem p env some_device up =
    elim (Result-cases (validate_backend_config p.backend_type (some p.backend_device))) [
      | inl (e, v) ↦
          let ends : init_validated p env (none, s) ≡ (some (error e), s) =
            simp (init_validated, v) in
          rw ends (failed_lem p env e p.backend_type up)
      | inr (k, v) ↦ elim (Result-cases env.register_blkdev) [
        | inl (e, g) ↦
            let ends : init_validated p env (none, s) ≡ (some (error e), s) =
              simp (init_validated, v, g) in
            rw ends (failed_lem p env e p.backend_type up)
        | inr (major, g) ↦
            let ends : init_validated p env (none, s) ≡ init_registered p env s major =
              simp (init_validated, v, g) in
            rw ends (registered_lem p env major some_device up)
      ]
    ]
  where
    s : UringblkModule
    s = with_admin true p.backend_type []

-- How loading ends.
pub load_ends :
    (p : ModuleParams) (env : LoadEnv)
    → 0 < p.max_devices
    → let r = uringblk_init p env (not_loaded p.backend_type) in
      (((e : Errno) × (r.0 ≡ some (error e))) × IsFailed p env r.1)
      ⊎ ((r.0 ≡ some divide_error) × IsTrapped p r.1)
      ⊎ ((r.0 ≡ none) × IsLoaded p env r.1)
unfolding uringblk_init
load_ends p env some_device = elim (admin_lem env p.backend_type) [
  | inl (e, r) ↦
      rw (r, validated_refused p env e (with_admin (admin_up env) p.backend_type []))
        (inl (
          (e, refl),
          record {
            kind = p.backend_type;
            freed = [];
            released = tt;
            is_state = refl;
            blank = λ w. ground (arith, w);
          },
        ))
  | inr (r, up) ↦ rw r (validated_lem p env some_device up)
]

-- Loading the driver, with a maximum of at least one device, ends in one of three ways. It succeeds, for
-- a block size other than 0, with exactly one device, which is up on its backend, and unloading then gives everything back: the module's
-- variables are those before loading but for the backend's type, and the device was freed after it
-- had been released. Or it returns an error, without a major number and without devices, every device that was
-- freed having been released before, but with the administration device registered wherever its own
-- registration had succeeded. Or the block size is 0 and it traps in the division by it, with the major
-- number, the device, its tag set and its disk held. Where it returns, memory that was never written is read only where the list of devices
-- parses to no path.
pub load_lem :
    (p : ModuleParams) (env : LoadEnv)
    → 0 < p.max_devices
    → let r = uringblk_init p env (not_loaded p.backend_type) in
      (((e : Errno) × (r.0 ≡ some (error e))) × IsFailed p env r.1)
      ⊎ ((r.0 ≡ some divide_error) × IsTrapped p r.1)
      ⊎ ((r.0 ≡ none)
          × IsLoaded p env r.1
          × (0 < p.logical_block_size)
          × (kind : ℕ) × (dev : UringblkDevice) × IsReleased dev
          × (uringblk_exit r.1 ≡ record (not_loaded kind) { freed = dev ∷ []; wild = r.1.wild }))
unfolding uringblk_exit
load_lem p env some_device = elim (load_ends p env some_device) [
  | inl failed ↦ inl failed
  | inr (inl trapped) ↦ inr (inl trapped)
  | inr (inr (u, m)) ↦ inr (
      inr (
        u,
        m,
        m.ready.block,
        m.paths.kind,
        uringblk_cleanup_device m.device,
        cleanup-IsReleased m.device,
        ap uringblk_exit m.is_state,
      ))
]
