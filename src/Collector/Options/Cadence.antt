-- ===== src/Collector/Options/Cadence.antt =====
-- When the cadenced phases run, at the shipped cadences.
use streamsight_agent.Base.{ℕ, ◌+◌, ◌^◌, ◌<◌, ◌≡◌, Bool, false, ◌&&◌, arith, pos}
use streamsight_agent.Collector.Options.{
  Options, every_nth, runs_this_cycle, CadencedPhases, cadenced_phases, phase_log_dirs,
  phase_max_ts, phase_configs,
}

-- The cadences that internal/config/config.go sets by default.
abbrev pub IsShipped : Options → Type 0
IsShipped o =
    (o.max_timestamp_every ≡ pos 12) × (o.log_dirs_every ≡ pos 24) × (o.configs_every ≡ pos 360)

-- At most one of the three runs.
abbrev pub AreDisjoint : CadencedPhases → Type 0
AreDisjoint p =
    ((p.run_dirs && p.run_max_ts) ≡ false)
    × ((p.run_dirs && p.run_cfg) ≡ false)
    × ((p.run_max_ts && p.run_cfg) ≡ false)

dirs_max_ts :
    (n : ℕ) (a b : Bool)
    → n + 5 < 2 ^ 64
    → (runs_this_cycle a (pos 24) phase_log_dirs n && runs_this_cycle b (pos 12) phase_max_ts n)
      ≡ false
unfolding runs_this_cycle every_nth
dirs_max_ts n a b h = ground (arith, h)

dirs_cfg :
    (n : ℕ) (a b : Bool)
    → n + 5 < 2 ^ 64
    → (runs_this_cycle a (pos 24) phase_log_dirs n && runs_this_cycle b (pos 360) phase_configs n)
      ≡ false
unfolding runs_this_cycle every_nth
dirs_cfg n a b h = ground (arith, h)

max_ts_cfg :
    (n : ℕ) (a b : Bool)
    → n + 5 < 2 ^ 64
    → (runs_this_cycle a (pos 12) phase_max_ts n && runs_this_cycle b (pos 360) phase_configs n)
      ≡ false
unfolding runs_this_cycle every_nth
max_ts_cfg n a b h = ground (arith, h)

-- At the shipped cadences no two of the log-dirs, max-timestamp and config phases run on one cycle,
-- whichever of them are enabled, on every cycle before the counter wraps.
pub cadenced_phases-AreDisjoint :
    (o : Options) (n : ℕ) → IsShipped o → n + 5 < 2 ^ 64 → AreDisjoint (cadenced_phases o n)
unfolding cadenced_phases
cadenced_phases-AreDisjoint o n (ts, dirs, cfg) h = (
  rw (ts, dirs) (dirs_max_ts n o.collect_log_dirs o.collect_max_timestamp h),
  rw (dirs, cfg) (dirs_cfg n o.collect_log_dirs o.collect_configs h),
  rw (ts, cfg) (max_ts_cfg n o.collect_max_timestamp o.collect_configs h),
)
