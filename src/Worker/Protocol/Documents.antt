-- ===== src/Worker/Protocol/Documents.antt =====
-- The documents and parameters of a delivery compared, field by field.
use text.Mathlib.TextPositions.{eq_refl}
use clusterprobe.Prelude.{ℕ, Bool, true, false, ◌&&◌, ◌==◌, ◌≡◌, refl, arith, str_eq}
use clusterprobe.Go.Int64.{ℤ, pos, negsuc}
use clusterprobe.Workload.Types.{ScenarioResponse, LoadProfile}
use clusterprobe.Workload.Params.{WorkloadParams}
use clusterprobe.Workload.Split.{MixedProfile}
use clusterprobe.Worker.Effects.{Snapshot}

same_int : ℤ → ℤ → Bool
same_int (pos a) (pos b) = a == b
same_int (negsuc a) (negsuc b) = a == b
same_int (pos a) (negsuc b) = false
same_int (negsuc a) (pos b) = false

same_profile : LoadProfile → LoadProfile → Bool
same_profile p q =
    same_int p.rps q.rps
    && (same_int p.duration q.duration
        && (same_int p.payload_size_bytes q.payload_size_bytes
            && (same_int p.concurrency q.concurrency
                && (str_eq p.target_queue q.target_queue
                    && str_eq p.workload_type q.workload_type))))

pub same_scenario : ScenarioResponse → ScenarioResponse → Bool
same_scenario s t =
    str_eq s.id t.id
    && (str_eq s.name t.name
        && (same_profile s.profile t.profile
            && (str_eq s.status t.status && (s.created_at == t.created_at))))

pub same_snapshot : Snapshot → Snapshot → Bool
same_snapshot s t =
    str_eq s.scenario_id t.scenario_id
    && (str_eq s.workload t.workload
        && (same_int s.ops t.ops
            && (same_int s.duration_ms t.duration_ms
                && (str_eq s.error t.error && (s.timestamp == t.timestamp)))))

same_mix : MixedProfile → MixedProfile → Bool
same_mix m n =
    same_int m.cpu_percent n.cpu_percent
    && (same_int m.db_write_percent n.db_write_percent
        && same_int m.db_read_percent n.db_read_percent)

pub same_params : WorkloadParams → WorkloadParams → Bool
same_params p q =
    str_eq p.scenario_id q.scenario_id
    && (str_eq p.workload_type q.workload_type
        && (same_int p.duration_ms q.duration_ms
            && (same_int p.alloc_mb q.alloc_mb
                && (same_int p.batch_size q.batch_size
                    && (same_int p.read_lookback_ms q.read_lookback_ms
                        && same_mix p.mixed_profile q.mixed_profile)))))

same_int_refl : (a : ℤ) → same_int a a ≡ true
unfolding same_int
same_int_refl (pos a) = ground arith
same_int_refl (negsuc a) = ground arith

same_profile_refl : (p : LoadProfile) → same_profile p p ≡ true
unfolding same_profile
same_profile_refl p =
    rw
      (
        same_int_refl p.rps,
        same_int_refl p.duration,
        same_int_refl p.payload_size_bytes,
        same_int_refl p.concurrency,
        eq_refl p.target_queue,
        eq_refl p.workload_type,
      )
      refl

same_time : (t : ℕ) → (t == t) ≡ true
same_time t = ground arith

pub same_scenario_refl : (s : ScenarioResponse) → same_scenario s s ≡ true
unfolding same_scenario
same_scenario_refl s =
    rw
      (
        eq_refl s.id,
        eq_refl s.name,
        same_profile_refl s.profile,
        eq_refl s.status,
        same_time s.created_at,
      )
      refl

pub same_snapshot_refl : (s : Snapshot) → same_snapshot s s ≡ true
unfolding same_snapshot
same_snapshot_refl s =
    rw
      (
        eq_refl s.scenario_id,
        eq_refl s.workload,
        same_int_refl s.ops,
        same_int_refl s.duration_ms,
        eq_refl s.error,
        same_time s.timestamp,
      )
      refl

pub same_params_refl : (p : WorkloadParams) → same_params p p ≡ true
unfolding same_params same_mix
same_params_refl p =
    rw
      (
        eq_refl p.scenario_id,
        eq_refl p.workload_type,
        same_int_refl p.duration_ms,
        same_int_refl p.alloc_mb,
        same_int_refl p.batch_size,
        same_int_refl p.read_lookback_ms,
        same_int_refl p.mixed_profile.cpu_percent,
        same_int_refl p.mixed_profile.db_write_percent,
        same_int_refl p.mixed_profile.db_read_percent,
      )
      refl
