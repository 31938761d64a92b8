-- ===== src/Api/Meta.antt =====
-- Object metadata (k8s.io/apimachinery): the fields that the program reads or writes.
use sidekick.Prelude.{String, Bool, Option, List, ℤ}
use sidekick.Prelude.Maps.{GoMap}

pub record OwnerReference : Type 0 where
  pub kind : String
  pub name : String
  pub uid : String
  pub controller : Option Bool
  pub block_owner_deletion : Option Bool

-- A deletion timestamp is only tested for nil.
pub record ObjectMeta (R : Type 0) : Type 0 where
  pub name : String
  pub namespace : String
  pub uid : String
  pub generation : ℤ
  pub annotations : GoMap String
  pub labels : GoMap String
  pub finalizers : List String
  pub deletion_timestamp : Option R
  pub owner_references : List OwnerReference

pub record NamespacedName : Type 0 where
  pub namespace : String
  pub name : String
