-- ===== src/Cluster.antt =====
-- The API server as the reconcilers see it, also that of the hub, which has a namespace with
-- ManifestWorks for each cluster. What it answers comes from
-- a parameter, which may change the world in any way between two calls. Each call that changes an
-- object is logged, with what it was given and its outcome.
mod Effects
pub mod Keeps
pub mod Yields
pub mod Leads
unfoldable pub use Effects.{Io, pure, raise, lift, attempt, ◌>>=◌, ◌>>◌}
pub use Effects.{>>=-ok, >>=-err, attempt-next, >>=-eq-ok}
use sidekick.Prelude.{String, Option, List, ◌∷◌, Result, ok}
use sidekick.Api.Meta.{NamespacedName}
use sidekick.Api.Pod.{Pod}
use sidekick.Api.Sidekick.{Sidekick, LabelSelector}
use sidekick.Api.ManifestWork.{ManifestWork}
use sidekick.Api.Wiring.{Secret, ServiceExport}

-- `applied` is `cu.CreateOrPatch`, and `patched_sidekick_status` is `cu.PatchStatus`: they are given
-- an object and the change to be made to the stored one, and return the object as it is then.
-- `skipped_mw` is no change: it notes that a search for the ManifestWork of that name gave no
-- namespace in which to delete it.
pub data Event (R : Type 0) : Type 0 where
  applied_pod : Pod R → (Pod R → Pod R) → Result (Pod R) → Event R
  updated_pod_status : Pod R → Result (Unit {0}) → Event R
  deleted_pod : Pod R → Result (Unit {0}) → Event R
  deleted_pod_named : NamespacedName → Result (Unit {0}) → Event R
  applied_sidekick : Sidekick R → (Sidekick R → Sidekick R) → Result (Sidekick R) → Event R
  patched_sidekick_status : Sidekick R → (Sidekick R → Sidekick R) → Result (Sidekick R) → Event R
  applied_mw :
      ManifestWork R → (ManifestWork R → ManifestWork R) → Result (ManifestWork R) → Event R
  deleted_mw : ManifestWork R → Result (Unit {0}) → Event R
  deleted_mw_named : NamespacedName → Result (Unit {0}) → Event R
  skipped_mw : String → Event R
  applied_secret : NamespacedName → (Secret → Secret) → Result Secret → Event R
  applied_export : ServiceExport → Result (Unit {0}) → Event R

-- `on_ocm_get` and `on_ocm_list` are the calls of `OCMClient`, by namespace, and `on_get_mw` is a
-- read of the cache. A key is `randomKey`.
pub record Server (R W : Type 0) : Type 0 where
  pub on_get_pod : NamespacedName → W → Result (Pod R) × W
  pub on_get_sidekick : NamespacedName → W → Result (Sidekick R) × W
  pub on_list_pods : String → Option (LabelSelector R) → W → Result (List (Pod R)) × W
  pub on_list_sidekicks : Option String → W → Result (List (Sidekick R)) × W
  pub on_apply_pod : Pod R → (Pod R → Pod R) → W → Result (Pod R) × W
  pub on_update_pod_status : Pod R → W → Result (Unit {0}) × W
  pub on_delete_pod : Pod R → W → Result (Unit {0}) × W
  pub on_delete_pod_named : NamespacedName → W → Result (Unit {0}) × W
  pub on_apply_sidekick : Sidekick R → (Sidekick R → Sidekick R) → W → Result (Sidekick R) × W
  pub on_patch_sidekick_status :
      Sidekick R → (Sidekick R → Sidekick R) → W → Result (Sidekick R) × W
  pub on_list_namespaces : W → Result (List String) × W
  pub on_ocm_get : String → String → W → Result (ManifestWork R) × W
  pub on_ocm_list : String → Option (LabelSelector R) → W → Result (List (ManifestWork R)) × W
  pub on_get_mw : NamespacedName → W → Result (ManifestWork R) × W
  pub on_apply_mw :
      ManifestWork R → (ManifestWork R → ManifestWork R) → W → Result (ManifestWork R) × W
  pub on_delete_mw : ManifestWork R → W → Result (Unit {0}) × W
  pub on_delete_mw_named : NamespacedName → W → Result (Unit {0}) × W
  pub on_get_secret : NamespacedName → W → Result Secret × W
  pub on_apply_secret : NamespacedName → (Secret → Secret) → W → Result Secret × W
  pub on_apply_export : ServiceExport → W → Result (Unit {0}) × W
  pub on_random_key : W → Result String × W

-- The world, and the log with the last change first.
pub record Run (R W : Type 0) : Type 0 where
  pub world : W
  pub log : List (Event R)

module _ {R W A : Type 0} where
  unfoldable pub read : (W → Result A × W) → Io (Run R W) A
  read f s = let (r, w) = f s.world in (r, record s { world = w })

  unfoldable pub write : (Result A → Event R) → (W → Result A × W) → Io (Run R W) A
  write e f s = let (r, w) = f s.world in (r, record { world = w; log = e r ∷ s.log })

unfoldable pub note : {R W : Type 0} → Event R → Io (Run R W) (Unit {0})
note e s = (ok tt, record s { log = e ∷ s.log })

module _ {R W : Type 0} (server : Server R W) where
  abbrev pub get_pod : NamespacedName → Io (Run R W) (Pod R)
  get_pod key = read (server.on_get_pod key)

  abbrev pub get_sidekick : NamespacedName → Io (Run R W) (Sidekick R)
  get_sidekick key = read (server.on_get_sidekick key)

  abbrev pub list_pods : String → Option (LabelSelector R) → Io (Run R W) (List (Pod R))
  list_pods namespace selector = read (server.on_list_pods namespace selector)

  abbrev pub list_sidekicks : Option String → Io (Run R W) (List (Sidekick R))
  list_sidekicks namespace = read (server.on_list_sidekicks namespace)

  abbrev pub apply_pod : Pod R → (Pod R → Pod R) → Io (Run R W) (Pod R)
  apply_pod pod f = write (applied_pod pod f) (server.on_apply_pod pod f)

  abbrev pub update_pod_status : Pod R → Io (Run R W) (Unit {0})
  update_pod_status pod = write (updated_pod_status pod) (server.on_update_pod_status pod)

  abbrev pub delete_pod : Pod R → Io (Run R W) (Unit {0})
  delete_pod pod = write (deleted_pod pod) (server.on_delete_pod pod)

  abbrev pub delete_pod_named : NamespacedName → Io (Run R W) (Unit {0})
  delete_pod_named key = write (deleted_pod_named key) (server.on_delete_pod_named key)

  abbrev pub apply_sidekick : Sidekick R → (Sidekick R → Sidekick R) → Io (Run R W) (Sidekick R)
  apply_sidekick sidekick f =
      write (applied_sidekick sidekick f) (server.on_apply_sidekick sidekick f)

  abbrev pub patch_sidekick_status :
      Sidekick R → (Sidekick R → Sidekick R) → Io (Run R W) (Sidekick R)
  patch_sidekick_status sidekick f =
      write (patched_sidekick_status sidekick f) (server.on_patch_sidekick_status sidekick f)

  abbrev pub list_namespaces : Io (Run R W) (List String)
  list_namespaces = read server.on_list_namespaces

  abbrev pub ocm_get : String → String → Io (Run R W) (ManifestWork R)
  ocm_get name namespace = read (server.on_ocm_get namespace name)

  abbrev pub ocm_list : Option (LabelSelector R) → String → Io (Run R W) (List (ManifestWork R))
  ocm_list selector namespace = read (server.on_ocm_list namespace selector)

  abbrev pub get_mw : NamespacedName → Io (Run R W) (ManifestWork R)
  get_mw key = read (server.on_get_mw key)

  abbrev pub apply_mw :
      ManifestWork R → (ManifestWork R → ManifestWork R) → Io (Run R W) (ManifestWork R)
  apply_mw mw f = write (applied_mw mw f) (server.on_apply_mw mw f)

  abbrev pub delete_api_mw : ManifestWork R → Io (Run R W) (Unit {0})
  delete_api_mw mw = write (deleted_mw mw) (server.on_delete_mw mw)

  abbrev pub delete_mw_named : NamespacedName → Io (Run R W) (Unit {0})
  delete_mw_named key = write (deleted_mw_named key) (server.on_delete_mw_named key)

  abbrev pub apply_export : ServiceExport → Io (Run R W) (Unit {0})
  apply_export export = write (applied_export export) (server.on_apply_export export)
