-- ===== src/Tests/Store.antt =====
-- A store of one Sidekick and its pod, beside one database pod.
use sidekick.Prelude.{
  ℕ, String, ◌≡◌, refl, ap, ◌∙◌, false, none, List, [], ◌∷◌, ◌==◌, arith, not_found, Result, ok,
  err, ok-injective, if◌then◌else◌,
}
use sidekick.Api.Meta.{ObjectMeta, NamespacedName}
use sidekick.Api.Pod.{Pod}
use sidekick.Api.Sidekick.{Sidekick}
use sidekick.Api.Library.{Library}
use sidekick.Cluster.{Server}
use sidekick.Reconcile.Store.{IsStore, pod_key}
use sidekick.Reconcile.Created.{AddsFinalizer}
use sidekick.Tests.Fixtures
use sidekick.Tests.Fixtures.{fresh, leader}

-- The pod is that of the Sidekick, if there is one.
pub record World : Type 0 where
  pub sidekick : Sidekick ℕ
  pub pod : Result (Pod ℕ)

abbrev add_finalizer : ObjectMeta ℕ → String → List String → ObjectMeta ℕ
add_finalizer m f [] = record m { finalizers = f ∷ [] }
add_finalizer m f (_ ∷ _) = m

abbrev pub lib : Library ℕ
lib = record Fixtures.lib { add_finalizer = λ m f. add_finalizer m f m.finalizers }

abbrev pub with_status_of : (Sidekick ℕ → Sidekick ℕ) → Sidekick ℕ → Sidekick ℕ
with_status_of f sk = record sk { status = (f sk).status }

abbrev patched : World → (Sidekick ℕ → Sidekick ℕ) → Sidekick ℕ
patched w f = with_status_of f w.sidekick

-- The server does not take over a deletion timestamp.
abbrev admit : Pod ℕ → Pod ℕ
admit p = record p { metadata = record (p.metadata) { deletion_timestamp = none } }

-- Only pods of the name of the Sidekick are created.
abbrev pub store : Server ℕ World
store = record {
  on_get_pod = λ key w. (if key.name == "db-0" then ok (leader "db-0") else w.pod, w);
  on_get_sidekick = λ key w. (ok w.sidekick, w);
  on_list_pods = λ ns sel w. (ok (leader "db-0" ∷ []), w);
  on_list_sidekicks = λ ns w. (ok (w.sidekick ∷ []), w);
  on_apply_pod = λ p f w. (ok (admit (f p)), record w { pod = ok (admit (f p)) });
  on_update_pod_status = λ p w. (ok tt, w);
  on_delete_pod = λ p w. (ok tt, record w { pod = err not_found });
  on_delete_pod_named = λ key w. (ok tt, record w { pod = err not_found });
  on_apply_sidekick = λ sk f w. (ok (f w.sidekick), record w { sidekick = f w.sidekick });
  on_patch_sidekick_status = λ sk f w. (ok (patched w f), record w { sidekick = patched w f });
  on_list_namespaces = λ w. (ok [], w);
  on_ocm_get = λ ns name w. (err not_found, w);
  on_ocm_list = λ ns sel w. (ok [], w);
  on_get_mw = λ key w. (err not_found, w);
  on_apply_mw = λ mw f w. (ok (f mw), w);
  on_delete_mw = λ mw w. (ok tt, w);
  on_delete_mw_named = λ key w. (ok tt, w);
  on_get_secret = λ key w. (err not_found, w);
  on_apply_secret = λ key f w. (err not_found, w);
  on_apply_export = λ e w. (ok tt, w);
  on_random_key = λ w. (ok "random", w);
}

got :
    (key : NamespacedName) (found : Result (Pod ℕ))
    → (if key.name == "db-0" then ok (leader "db-0") else found) ≡ err not_found
    → ((key.name == "db-0") ≡ false) × (found ≡ err not_found)
got key found h = ground arith

stays :
    (key : NamespacedName) (found : Result (Pod ℕ)) (made pod : Pod ℕ)
    → found ≡ err not_found
    → (if key.name == "db-0" then ok (leader "db-0") else found) ≡ ok pod
    → (if key.name == "db-0" then ok (leader "db-0") else ok made) ≡ ok pod
stays key found made pod e h = ground arith

pub store-IsStore : IsStore store
store-IsStore = record {
  reads_pod = λ key w. refl;
  reads_sidekick = λ key w. refl;
  reads_list = λ ns sel w. refl;
  applies = λ sk f w h same.
      let e = ap f (ok-injective _ _ h) ∙ same in
      (ap ok e, ap ok e, record { gets = λ key. refl; lists = λ ns sel. refl });
  patches = λ sk s f w h key.
      let e : patched w f ≡ record sk { status = (f sk).status } =
        ap (with_status_of f) (ok-injective _ _ h) in
      (ap ok e, ap ok e, record { gets = λ k. refl; lists = λ ns sel. refl });
  creates = λ pod f w h key.
      let (other, gone) = got (pod_key pod) w.pod h in
      (
        admit (f pod),
        refl,
        record { annotations = refl; lives = refl; node_name = refl },
        rw other refl,
        record {
          stays = λ k q there. stays k w.pod (admit (f pod)) q gone there;
          runs = λ ns sel pods listed. (pods, listed, refl);
          sidekicks = λ k. refl;
        },
      );
}

added :
    (m : ObjectMeta ℕ) (f : String) (old : List String)
    → ((add_finalizer m f old).name ≡ m.name)
      × ((add_finalizer m f old).namespace ≡ m.namespace)
      × ((add_finalizer m f old).annotations ≡ m.annotations)
added m f [] = (refl, refl, refl)
added m f (_ ∷ _) = (refl, refl, refl)

pub adds : AddsFinalizer lib
adds = record {
  name = λ m f. (added m f m.finalizers).0;
  namespace = λ m f. let (n, ns, a) = added m f m.finalizers in ns;
  annotations = λ m f. let (n, ns, a) = added m f m.finalizers in a;
}
