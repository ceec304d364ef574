-- ===== src/Tools/Main.antt =====
-- The program of src/kvm_db.cc up to its tests of the block driver, with the probe's initialisation,
-- src/kvm_probe.cc.
use kvm_db.Prelude.{ℕ, ◌≡◌, ◌≢◌, refl, ◌⊎◌, inl, inr, true, Option, none, some, Option-cases, arith}
use kvm_db.Prelude.Errno.{Errno, Result, ok, err}
use kvm_db.Tools.WalNodes.{
  Node, NodeEnv, Nodes, Manager, Attempt, done, thrown, failed, rwal, wal, new_manager,
  create_devices, cleanup_devices,
}
use kvm_db.Tools.WalClient.{WalFiles, Client, open_devices, close_devices, test_device_operations}

-- `KVM_probe`: its descriptor, none for -1.
pub record KvmProbe : Type 0 where
  pub kvm_fd : Option ℕ

-- `opened`: what `open` gives for /dev/kvm.
unfoldable pub initialize : Result ℕ → KvmProbe → Option Errno × KvmProbe
initialize (err e) probe = (some e, record { kvm_fd = none })
initialize (ok fd) probe = (none, record { kvm_fd = some fd })

-- The program returns a code, or an exception that nothing catches ends it.
pub data Ending : Type 0 where
  exited : ℕ → Ending
  terminated : Ending

-- What the system calls give.
pub record MainEnv : Type 0 where
  pub nodes : NodeEnv
  pub kvm : Result ℕ
  pub char : Result ℕ
  pub block : Result ℕ

-- The ending, the device nodes, the log client as its destructor leaves it, and the state of the
-- kernel.
pub record Ended {ℓ} (S : Type ℓ) : Type ℓ where
  pub ending : Ending
  pub nodes : Nodes
  pub client : Client
  pub kernel : S

abbrev pub no_client : Client
no_client = record { char_fd = none; block_fd = none; open_fds = 0 }

-- The tests' results are only reported; the destructors run in the end, but not where the program is
-- terminated.
unfoldable pub main {ℓ} : {S : Type ℓ} → WalFiles S → MainEnv → Nodes → S → Ended S
main {S = S} files env fs s =
    let created = create_devices env.nodes (new_manager fs) in
    let cleaned = cleanup_devices env.nodes created.1 in
    let returns : ℕ → Client → S → Ended S = λ code client kernel. record {
      ending = exited code;
      nodes = cleaned.fs;
      client = client;
      kernel = kernel;
    } in
    elim created.0 [
      | thrown ↦ record {
        ending = terminated;
        nodes = created.1.fs;
        client = no_client;
        kernel = s;
      }
      | failed e ↦ returns 1 no_client s
      | done ↦ elim (initialize env.kvm (record { kvm_fd = none })).0 [
        | some e ↦ returns 1 no_client s
        | none ↦
            let opened = open_devices env.char env.block no_client in
            elim opened.0 [
              | some e ↦ returns 0 (close_devices opened.1) s
              | none ↦
                  returns 0 (close_devices opened.1) (test_device_operations files opened.1 s).1
            ]
      ]
    ]

-- A path is free, or as it was.
abbrev pub KeptOrFree : Option Node → Option Node → Type 0
KeptOrFree before after = (after ≡ none) ⊎ (after ≡ before)

nodes_after :
    (env : NodeEnv) (fs : Nodes)
    → env.unlink rwal ≡ true
    → env.unlink wal ≡ true
    → let created = create_devices env (new_manager fs) in
      let after = (cleanup_devices env created.1).fs in
      ((created.0 ≡ done) × (after ≡ record { at_rwal = none; at_wal = none }))
      ⊎ ((created.0 ≢ done)
          × KeptOrFree fs.at_rwal after.at_rwal
          × KeptOrFree fs.at_wal after.at_wal)
unfolding create_devices cleanup_devices
nodes_after env fs u v = ground arith

Attempt-cases : (a : Attempt) → (a ≡ done) ⊎ (a ≡ thrown) ⊎ ((e : Errno) × (a ≡ failed e))
Attempt-cases Attempt.done = inl refl
Attempt-cases Attempt.thrown = inr (inl refl)
Attempt-cases (Attempt.failed e) = inr (inr (e, refl))

closed_client :
    (char block : Result ℕ) → (close_devices (open_devices char block no_client).1).open_fds ≡ 0
unfolding open_devices close_devices
closed_client char block = ground arith

-- However the program ends but by an exception, where `unlink` succeeds, no descriptor of the log
-- client stays open, and each of the two device nodes' paths is free or as it was; after the code 0
-- both are free.
pub main_lem {ℓ} :
    {S : Type ℓ} (files : WalFiles S) (env : MainEnv) (fs : Nodes) (s : S)
    → env.nodes.unlink rwal ≡ true
    → env.nodes.unlink wal ≡ true
    → let r = main files env fs s in
      ((r.ending ≡ terminated) × ((create_devices env.nodes (new_manager fs)).0 ≡ thrown))
      ⊎ ((r.ending ≡ exited 1)
          × (r.client.open_fds ≡ 0)
          × KeptOrFree fs.at_rwal r.nodes.at_rwal
          × KeptOrFree fs.at_wal r.nodes.at_wal)
      ⊎ ((r.ending ≡ exited 0)
          × (r.client.open_fds ≡ 0)
          × (r.nodes ≡ record { at_rwal = none; at_wal = none }))
unfolding main
main_lem {S = S} files env fs s u v = elim (Attempt-cases created.0) [
  | inl d ↦
      let freed : after.fs ≡ record { at_rwal = none; at_wal = none } =
        elim (nodes_after env.nodes fs u v) [ inl n ↦ n.1 | inr n ↦ absurd (n.0 d) ] in
      elim (Option-cases (initialize env.kvm (record { kvm_fd = none })).0) [
        | inr (e, k) ↦
            let ends : main files env fs s ≡ returns 1 no_client s = simp (main, d, k) in
            rw (ends, freed) (inr (inl (refl, refl, inl refl, inl refl)))
        | inl k ↦ elim (Option-cases opened.0) [
          | inr (e, o) ↦
              let ends : main files env fs s ≡ returns 0 (close_devices opened.1) s =
                simp (main, d, k, o) in
              rw (ends, freed) (inr (inr (refl, closed_client env.char env.block, refl)))
          | inl o ↦
              let ends : main files env fs s
                  ≡ returns 0 (close_devices opened.1) (test_device_operations files opened.1 s).1 =
                simp (main, d, k, o) in
              rw (ends, freed) (inr (inr (refl, closed_client env.char env.block, refl)))
        ]
      ]
  | inr (inl t) ↦ inl (simp (main, t), t)
  | inr (inr (e, f)) ↦
      let ends : main files env fs s ≡ returns 1 no_client s = simp (main, f) in
      elim (nodes_after env.nodes fs u v) [
        | inl n ↦ absurd (ground (arith, n.0, f))
        | inr n ↦ rw ends (inr (inl (refl, refl, n.1, n.2)))
      ]
]
  where
    created : Attempt × Manager
    created = create_devices env.nodes (new_manager fs)

    after : Manager
    after = cleanup_devices env.nodes created.1

    opened : Option Errno × Client
    opened = open_devices env.char env.block no_client

    returns : ℕ → Client → S → Ended S
    returns code client kernel = record {
      ending = exited code;
      nodes = after.fs;
      client = client;
      kernel = kernel;
    }
