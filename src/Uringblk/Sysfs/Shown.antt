-- ===== src/Uringblk/Sysfs/Shown.antt =====
-- What the attributes show.
use kvm_db.Prelude.{
  ℕ, ◌+◌, ◌*◌, ◌^◌, ◌≤◌, ◌<◌, ◌≡◌, ◌≢◌, refl, ap, ◌∙◌, ◌⊎◌, inl, inr, Option, none, some, [], ◌∷◌,
  drop, ◌==◌, Bool-cases, arith,
}
use kvm_db.Prelude.Errno.{einval, ok, err}
use kvm_db.Prelude.Word.{u64}
use kvm_db.Prelude.Text.{print_line, read_line, read_line-print_line}
use kvm_db.Uringblk.Backend.{Backend}
use kvm_db.Uringblk.Device.{AsyncEnv}
use kvm_db.Uringblk.Request.{Request, UringblkStats, op_write, count_request}
use kvm_db.Uringblk.Queue.{uringblk_queue_rq}
use kvm_db.Uringblk.Queue.Counts.{inside_stats}
use kvm_db.Uringblk.Instance.{UringblkDevice, no_stats, queue_view}
use kvm_db.Uringblk.Sysfs.{
  Counter, attr_write_ops, attr_write_bytes, Setting, attr_features, attr_nr_hw_queues,
  attr_queue_depth, attr_capacity, counter_of, capacity_of, counter_show, setting_show,
  stats_reset_store,
}

-- The text of an attribute that shows a number, each of at most 64 bits, is that number's, to base 10,
-- or to base 16 after two characters for the features: reading it gives the number back.
shown_number :
    (dev : UringblkDevice) (a : Counter)
    → counter_of a dev.stats < 2 ^ 64
    → dev.features < 2 ^ 64
    → dev.config.nr_hw_queues < 2 ^ 64
    → dev.config.queue_depth < 2 ^ 64
    → capacity_of dev < 2 ^ 64
    → (read_line 10 0 (counter_show a dev) ≡ counter_of a dev.stats)
      × (read_line 16 0 (drop 2 (setting_show attr_features dev)) ≡ dev.features)
      × (read_line 10 0 (setting_show attr_nr_hw_queues dev) ≡ dev.config.nr_hw_queues)
      × (read_line 10 0 (setting_show attr_queue_depth dev) ≡ dev.config.queue_depth)
      × (read_line 10 0 (setting_show attr_capacity dev) ≡ capacity_of dev)
unfolding counter_show setting_show
shown_number dev a c f n q s = (
  read_line-print_line 10 (counter_of a dev.stats) (inl refl) c,
  read_line-print_line 16 dev.features (inr refl) f,
  read_line-print_line 10 dev.config.nr_hw_queues (inl refl) n,
  read_line-print_line 10 dev.config.queue_depth (inl refl) q,
  read_line-print_line 10 (capacity_of dev) (inl refl) s,
)

no_counts : (a : Counter) → counter_of a no_stats ≡ 0
no_counts Counter.attr_read_ops = refl
no_counts Counter.attr_write_ops = refl
no_counts Counter.attr_read_bytes = refl
no_counts Counter.attr_write_bytes = refl
no_counts Counter.attr_flush_ops = refl
no_counts Counter.attr_discard_ops = refl
no_counts Counter.attr_queue_full_events = refl
no_counts Counter.attr_media_errors = refl

setting_kept :
    (dev : UringblkDevice) (b : Setting) (stats : UringblkStats)
    → setting_show b (record dev { stats = stats }) ≡ setting_show b dev
unfolding setting_show
setting_kept dev Setting.attr_features stats = refl
setting_kept dev Setting.attr_firmware_rev stats = refl
setting_kept dev Setting.attr_model stats = refl
setting_kept dev Setting.attr_nr_hw_queues stats = refl
setting_kept dev Setting.attr_queue_depth stats = refl
setting_kept dev Setting.attr_poll_enabled stats = refl
setting_kept dev Setting.attr_discard_enabled stats = refl
setting_kept dev Setting.attr_write_cache stats = refl
setting_kept dev Setting.attr_capacity stats = refl

-- A text that reads as 1 sets the statistics back: every counter then shows 0 and every other
-- attribute what it showed before. Any other text, or one that is no number, gives EINVAL and changes
-- nothing.
pub stats_reset_lem :
    (dev : UringblkDevice) (parsed : Option ℕ) (count : ℕ) (a : Counter) (b : Setting)
    → let r = stats_reset_store dev parsed count in
      ((parsed ≡ some 1)
        × (r.0 ≡ ok count)
        × (counter_show a r.1 ≡ 48 ∷ 10 ∷ [])
        × (setting_show b r.1 ≡ setting_show b dev))
      ⊎ ((parsed ≢ some 1) × (r.0 ≡ err einval) × (r.1 ≡ dev))
unfolding stats_reset_store counter_show print_line
stats_reset_lem dev none count a b = inr (ground arith, refl, refl)
stats_reset_lem dev (some val) count a b = elim (Bool-cases (val == 1)) [
  | inl one ↦
      rw one
        (inl (ground arith, refl, ap (print_line 10) (no_counts a), setting_kept dev b no_stats))
  | inr other ↦ rw other (inr (ground arith, refl, refl))
]

-- After the statistics were set back, a write inside the disk shows as one write of its size.
pub reset_then_write :
    (lbs : ℕ) (env : AsyncEnv) (dev : UringblkDevice) (b : Backend) (count : ℕ) (rq : Request)
    → b.capacity < 2 ^ 63
    → rq.op ≡ op_write
    → rq.sector * lbs < b.capacity
    → rq.sector * lbs + rq.size ≤ b.capacity
    → let reset = (stats_reset_store dev (some 1) count).1 in
      let written = uringblk_queue_rq lbs env (queue_view reset b) rq in
      let after = record reset { stats = written.disk.stats } in
      (read_line 10 0 (counter_show attr_write_ops after) ≡ 1)
      × (read_line 10 0 (counter_show attr_write_bytes after) ≡ rq.size)
unfolding stats_reset_store counter_show count_request
reset_then_write lbs env dev b count rq small op low inside =
    let counted =
      inside_stats lbs env (queue_view (record dev { stats = no_stats }) b) rq small low inside in
    rw (counted, op)
      (
        read_line-print_line 10 1 (inl refl) (omega arith),
        read_line-print_line 10 (u64 (0 + rq.size)) (inl refl) (omega arith)
            ∙ omega (arith, small, inside),
      )
