-- ===== src/Api/Wiring.antt =====
-- Secrets (k8s.io/api/core/v1) and ServiceExports (kubeslice): the fields that the program reads or
-- writes.
use sidekick.Prelude.{ℕ, String, List}
use sidekick.Prelude.Maps.{GoMap}
use sidekick.Api.Meta.{OwnerReference, NamespacedName}

pub record Secret : Type 0 where
  pub owner_references : List OwnerReference
  pub contents : GoMap String

-- A ServiceExport, with its one port.
pub record ServiceExport : Type 0 where
  pub key : NamespacedName
  pub slice : String
  pub selector : GoMap String
  pub aliases : List String
  pub port_name : String
  pub container_port : ℕ
  pub protocol : String
