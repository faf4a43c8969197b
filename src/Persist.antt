-- ===== src/Persist.antt =====
-- The immutable objects of records.rs: `EncodedObject`, `put_create_same`, `load_bytes`, `exists` and
-- the tombstone checks. Other writers act on the store before each access: `others` is what they do.
pub mod Encode
pub mod Event
pub mod Keeps
pub mod Keys
pub mod Marker
pub mod Apart
pub mod Order
pub mod Stored
use milk_carton.Base.{
  ℕ, ◌*◌, Bool, true, false, ◌||◌, not, Option, none, some, List, [], ◌∷◌, ◌++◌, Bytes, codes,
  length, leb, ltb, nat_eq, if◌then◌else◌, ◌==◌, ℕ-Eq, List-Eq, String, Result, ok, err, bail_if,
  context,
}
use milk_carton.Crypto.{Crypto}
use milk_carton.Store.{
  Object, GetOutcome, found, not_found, get_failed, PutOutcome, done, already_exists, precondition,
  put_failed, ObjectStore,
}
use milk_carton.Effect.{Act, continue, ◌>>=◌, ◌>>◌, lift, return}

pub record EncodedObject : Type 0 where
  pub key : Bytes
  pub payload : Bytes
  pub sha256 : Bytes

pub data PutDisposition : Type 0 where
  created existing : PutDisposition

-- `encode_json`, of the bytes that serde_json gives, which does not fail on these types.
unfoldable pub encode_json : Crypto → Bytes → Bytes → EncodedObject
encode_json crypto key payload = record {
  key = key;
  payload = payload;
  sha256 = crypto.sha256 payload;
}

module _ {S : Type 0} (crypto : Crypto) (store : ObjectStore S) (others : S → S) where
  open crypto use {sha256}

  abbrev pub loaded : ℕ → GetOutcome → Result Bytes
  loaded max_bytes not_found = err "not found"
  loaded max_bytes (get_failed error) = err error
  loaded max_bytes (found object) =
      if ltb max_bytes (length object.payload) then err "object exceeds" else ok object.payload

  unfoldable pub load_bytes : Bytes → ℕ → Act S Bytes
  load_bytes key max_bytes s = let s' = others s in (loaded max_bytes (store.get s' key), s')

  -- The object that is there is this one.
  unfoldable pub same_object : EncodedObject → Bytes → Result PutDisposition
  same_object object present =
      if not (sha256 present == object.sha256) || not (present == object.payload)
      then err "object collision"
      else ok existing

  unfoldable pub after_put_create : EncodedObject → PutOutcome × S → Result PutDisposition × S
  unfolding load_bytes
  after_put_create object (done, s) = (ok created, s)
  after_put_create object (already_exists, s) =
      continue (load_bytes object.key (length object.payload) s)
        (λ present. lift (same_object object present))
  after_put_create object (precondition, s) = (err "precondition", s)
  after_put_create object (put_failed error, s) = (err error, s)

  unfoldable pub put_create_same : EncodedObject → Act S PutDisposition
  unfolding after_put_create
  put_create_same object s =
      after_put_create object (store.create (others s) object.key object.payload)

  -- `head` finds what `get` finds.
  abbrev pub head_exists : GetOutcome → Result Bool
  head_exists (found object) = ok true
  head_exists not_found = ok false
  head_exists (get_failed error) = err error

  unfoldable pub exists : Bytes → Act S Bool
  exists key s = let s' = others s in (head_exists (store.get s' key), s')

  unfoldable pub ensure_not_tombstoned : Bytes → Act S (Unit {0})
  ensure_not_tombstoned key = do
    there ← exists key
    lift (bail_if there "source has been tombstoned")

  -- `Err(error) => return Err(error).context(…)`
  abbrev pub recheck : Result Bool → Result (Unit {0})
  recheck (ok there) = bail_if there "source was tombstoned during write"
  recheck (err error) = err "tombstone recheck failed after write"

  unfoldable pub ensure_live_after_write : List Bytes → Act S (Unit {0})
  unfolding exists
  ensure_live_after_write [] s = (ok tt, s)
  ensure_live_after_write (key ∷ keys) s =
      let there = exists key s in
      continue (recheck there.0, there.1) (λ _. ensure_live_after_write keys)
