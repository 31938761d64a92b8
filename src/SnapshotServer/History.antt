-- ===== src/SnapshotServer/History.antt =====
-- The log statistics of a Snapshot: `UpdateSnapshot`, `trimLogHistory` and
-- `InitSnapshotComponentsStatus` of pkg/snapshotserver/snapshot.go.
pub mod Bounds
use sidekick.Prelude.{
  ℕ, ◌+◌, ◌%◌, String, Bool, Option, none, some, List, [], ◌∷◌, ◌++◌, ℤ, pos, ltb_ℤ, ltb, ◌==◌,
  if◌then◌else◌, get_or, Result, ok, ◌>>=◌,
}
use sidekick.Prelude.Lists.{length, take, drop}
use sidekick.Prelude.Maps.{GoMap, Entries, entries, insert, get, put}
use sidekick.Token.{Bytes}
use sidekick.SnapshotServer.Request.{LogInfo}

-- The types of kubestash.dev/apimachinery, with the fields that the program reads or writes; an
-- int64 counter is its bit pattern.
pub record Log : Type 0 where
  pub start : Option String
  pub end : Option String
  pub error : Bytes

pub record LogStats : Type 0 where
  pub start : Option String
  pub end : Option String
  pub total_failed_count : ℕ
  pub last_failed_stats : List Log
  pub total_succeeded_count : ℕ
  pub last_succeeded_stats : List Log

pub data ComponentPhase : Type 0 where
  unset pending running succeeded failed : ComponentPhase

pub record Component : Type 0 where
  pub phase : ComponentPhase
  pub log_stats : Option LogStats

pub record Snapshot : Type 0 where
  pub total_components : ℕ
  pub components : GoMap Component

abbrev pub component_log : String
component_log = "log"

abbrev pub max_log_limit : ℕ
max_log_limit = 100

abbrev pub max_log_bytes : ℕ
max_log_bytes = 4096

abbrev pub add64 : ℕ → ℕ → ℕ
add64 a b = (a + b) % 18446744073709551616

abbrev pub zero_stats : LogStats
zero_stats = record {
  start = none;
  end = none;
  total_failed_count = 0;
  last_failed_stats = [];
  total_succeeded_count = 0;
  last_succeeded_stats = [];
}

abbrev pub zero_component : Component
zero_component = record { phase = ComponentPhase.unset; log_stats = none }

-- The component of the log with its phase and statistics set, before the first patch.
unfoldable pub init_components : Snapshot → Snapshot
init_components snapshot =
    let comp_log = get_or zero_component (get snapshot.components component_log) in
    record snapshot {
      components = some (
          insert component_log
            (record {
              phase = ComponentPhase.running;
              log_stats = some (get_or zero_stats comp_log.log_stats);
            })
            (entries snapshot.components));
    }

-- `len(*logs) > limit`, where `limit` is an int
unfoldable pub trim_log_history : List Log → ℤ → List Log
trim_log_history logs limit = if ltb_ℤ limit (pos (length logs)) then drop 1 logs else logs

unfoldable pub clamp_limit : ℤ → ℤ
clamp_limit limit =
    let capped = if ltb_ℤ (pos max_log_limit) limit then pos max_log_limit else limit in
    if ltb_ℤ capped (pos 0) then pos 0 else capped

unfoldable pub truncate : ℕ → Bytes → Bytes
truncate n log = if ltb n (length log) then take n log else log

unfoldable pub clamp_log : Bytes → Bytes
unfolding truncate
clamp_log log = truncate max_log_bytes log

abbrev pub is_success : LogInfo → Bool
is_success info = info.kind == "success"

-- The statistics after a report, whose limit and log have been clamped.
unfoldable pub add_log : LogInfo → LogStats → LogStats
add_log info stats =
    let limit = clamp_limit info.log_limit in
    let begun = record stats {
      start = some (get_or info.start_time stats.start);
      end = some info.end_time;
    } in
    if is_success info
    then record begun {
      total_succeeded_count = add64 stats.total_succeeded_count 1;
      last_succeeded_stats =
          trim_log_history
            (stats.last_succeeded_stats
              ++ record { start = some info.start_time; end = some info.end_time; error = [] } ∷ [])
            limit;
    }
    else record begun {
      total_failed_count = add64 stats.total_failed_count 1;
      last_failed_stats =
          trim_log_history
            (stats.last_failed_stats
              ++ record {
                start = some info.start_time;
                end = some info.end_time;
                error = clamp_log info.log;
              }
                ∷ [])
            limit;
    }

-- The component of the log after a report.
unfoldable pub update_component : LogInfo → Component → Component
update_component info component = record component {
  log_stats = some (add_log info (get_or zero_stats component.log_stats));
}

-- The status that `UpdateSnapshot` sends with its second patch. The map that the first patch gave back
-- is written to, also where it is nil.
unfoldable pub update_components : LogInfo → Snapshot → Result Snapshot
update_components info snapshot = do
  components ←
      put component_log
        (update_component info (get_or zero_component (get snapshot.components component_log)))
        snapshot.components
  ok (record snapshot { components = components })
