-- ===== src/Controller/Config/Server.antt =====
-- What `CreateOrUpdate` and the API server behind it do with a ConfigMap.
use k8s_glb_operator.Base.{◌≡◌, ◌≢◌, refl, Option, some, []}
use k8s_glb_operator.Api.{NamespacedName, Error, Result, ok, err, ConfigMap, meta_key}
use k8s_glb_operator.Api.Objects.{CreateOrUpdate, Applies, base_of}

-- A server whose calls succeed. It holds one object under a name and keeps the entries of what it is
-- given, if there are any, and puts what it likes into the metadata; a map without entries can come back
-- as nil. Where the changing function fails nothing is written.
pub record Stores {S : Type 0} (apply : CreateOrUpdate S ConfigMap)
    (find_config : S → NamespacedName → Option ConfigMap) : Type 0 where
  pub named :
      (s : S) (k : NamespacedName) (cm : ConfigMap)
      → find_config s k ≡ some cm
      → meta_key cm.metadata ≡ k
  pub applied :
      (s : S) (made changed : ConfigMap) (mutate : ConfigMap → Result ConfigMap)
      → mutate (base_of (find_config s (meta_key made.metadata)) made) ≡ ok changed
      → meta_key changed.metadata ≡ meta_key made.metadata
      → changed.entries ≢ some []
      → (stored : ConfigMap) × ((apply s made mutate).1 ≡ ok stored)
        × (find_config (apply s made mutate).0 (meta_key made.metadata) ≡ some stored)
        × (stored.entries ≡ changed.entries)
  pub refused :
      (s : S) (made : ConfigMap) (mutate : ConfigMap → Result ConfigMap) (e : Error)
      → mutate (base_of (find_config s (meta_key made.metadata)) made) ≡ err e
      → apply s made mutate ≡ (s, err e)

-- One that adds nothing is such a server.
pub Applies-Stores :
    {S : Type 0} (apply : CreateOrUpdate S ConfigMap)
    (find_config : S → NamespacedName → Option ConfigMap)
    → Applies apply (λ cm. cm.metadata) find_config
    → Stores apply find_config
Applies-Stores apply find_config laws = record {
  named = laws.named;
  applied = λ s made changed mutate e same any.
      let (done, there) = laws.applied s made changed mutate e same in (changed, done, there, refl);
  refused = laws.refused;
}
