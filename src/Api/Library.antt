-- ===== src/Api/Library.antt =====
-- What the program calls in third-party packages, as functions that the model takes as a parameter:
-- `meta.GenerationHash`, `core_util.UpsertVolume`, `metav1.NewControllerRef`, and the finalizer
-- helpers of kmodules.xyz/client-go.
use sidekick.Prelude.{String, Bool, List}
use sidekick.Api.Meta.{ObjectMeta, OwnerReference}
use sidekick.Api.Pod.{Volume}

pub record Library (R : Type 0) : Type 0 where
  pub generation_hash : ObjectMeta R → String
  pub upsert_volume : List (Volume R) → List (Volume R) → List (Volume R)
  pub new_controller_ref : ObjectMeta R → String → OwnerReference
  pub add_finalizer : ObjectMeta R → String → ObjectMeta R
  pub has_finalizer : ObjectMeta R → String → Bool
  pub remove_finalizer : ObjectMeta R → String → ObjectMeta R
