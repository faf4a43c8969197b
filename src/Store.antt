-- ===== src/Store.antt =====
-- The object store that records.rs writes to, as the trait `ObjectStore` of the crate object_store
-- documents it, and `conditional_update_version` of records.rs. The state of the store is a
-- parameter; the code relies on create-if-absent, on compare-and-swap, and on a version that changes
-- with each write, which `probe_s3` tests at startup.
use milk_carton.Base.{◌≡◌, ◌≢◌, ◌&&◌, Option, Bytes, String, Result, ok, bail_if, ◌>>◌}
use milk_carton.Route.Url.{is_none}

pub record UpdateVersion : Type 0 where
  pub e_tag : Option Bytes
  pub version : Option Bytes

-- An object with its metadata.
pub record Object : Type 0 where
  pub payload : Bytes
  pub meta : UpdateVersion

pub data GetOutcome : Type 0 where
  found : Object → GetOutcome
  not_found : GetOutcome
  get_failed : String → GetOutcome

pub data PutOutcome : Type 0 where
  done already_exists precondition : PutOutcome
  put_failed : String → PutOutcome

pub record ObjectStore (S : Type 0) : Type 0 where
  pub get : S → Bytes → GetOutcome
  pub create : S → Bytes → Bytes → PutOutcome × S
  pub update : S → Bytes → UpdateVersion → Bytes → PutOutcome × S

pub record StoreLaws {S : Type 0} (store : ObjectStore S) : Type 0 where
  -- A create that succeeds found nothing, and its object is read at once.
  pub create_done :
      (s : S) (key payload : Bytes)
      → (store.create s key payload).0 ≡ done
      → (store.get s key ≡ not_found)
        × ((meta : UpdateVersion) × (store.get (store.create s key payload).1 key
              ≡ found (record { payload = payload; meta = meta })))
  -- An update that succeeds found the expected version, and leaves another one.
  pub update_done :
      (s : S) (key : Bytes) (expected : UpdateVersion) (payload : Bytes)
      → (store.update s key expected payload).0 ≡ done
      → ((old : Bytes) × (store.get s key ≡ found (record { payload = old; meta = expected })))
        × ((meta : UpdateVersion) × (meta ≢ expected)
            × (store.get (store.update s key expected payload).1 key
                ≡ found (record { payload = payload; meta = meta })))
  -- A put that is refused changes nothing.
  pub create_refused :
      (s : S) (key payload : Bytes)
      → (store.create s key payload).0 ≡ already_exists
      → (store.create s key payload).1 ≡ s
  pub update_refused :
      (s : S) (key : Bytes) (expected : UpdateVersion) (payload : Bytes)
      → (store.update s key expected payload).0 ≡ precondition
      → (store.update s key expected payload).1 ≡ s

unfoldable pub conditional_update_version : UpdateVersion → String → Result UpdateVersion
conditional_update_version meta object = do
  bail_if (is_none meta.e_tag && is_none meta.version) object
  ok meta
