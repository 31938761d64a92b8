-- ===== src/SnapshotServer/Request.antt =====
-- grpc/grpc.go: the envelope of a request. A log is the bytes of its text.
use sidekick.Prelude.{String, ℤ}
use sidekick.Token.{Bytes}

pub record LogInfo : Type 0 where
  pub kind : String
  pub log : Bytes
  pub log_limit : ℤ
  pub start_time : String
  pub end_time : String

pub record SnapShot : Type 0 where
  pub log_info : LogInfo
  pub sidekick_name : String
  pub name_space : String
  pub token : String
  pub snapshot_token : String

-- What the digest of a token covers: all but the token and the grant.
pub record Bound : Type 0 where
  pub sidekick_name : String
  pub name_space : String
  pub log_info : LogInfo

-- `BindingPayload`; `marshal` is `json.Marshal` of these fields.
unfoldable pub binding_payload : (Bound → Bytes) → SnapShot → Bytes
binding_payload marshal s =
    marshal
      (record { sidekick_name = s.sidekick_name; name_space = s.name_space; log_info = s.log_info })
