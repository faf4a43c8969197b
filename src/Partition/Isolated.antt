-- ===== src/Partition/Isolated.antt =====
-- No operation of the partitioned store reaches a partition that it may not write.
use milk_carton.Base.{
  ◌≡◌, ◌≢◌, refl, sym, ap, ◌∙◌, subst, true, Option, none, some, List, [], ◌∷◌, Bytes, String,
  Result, ok, err, >>=-eq-ok, bail_if-eq-ok, ok-injective,
}
use milk_carton.Store.{UpdateVersion, put_failed, ObjectStore}
use milk_carton.Partition.{
  StorePartition, capture, control, routes, StoreAccess, read_only, read_write, Parts, part,
  set_part, allowed, slot, same_writable_slot, in_slot, partitioned_create, partitioned_update,
  partitioned_delete, partitioned_copy, partitioned_copy_if_not_exists,
}

-- An operation that can change the store.
pub data Request : Type 0 where
  create : Bytes → Bytes → Request
  update : Bytes → UpdateVersion → Bytes → Request
  delete : Bytes → Request
  copy : Bytes → Bytes → Request
  copy_if_not_exists : Bytes → Bytes → Request

-- The key that it writes.
abbrev pub target : Request → Bytes
target (create key payload) = key
target (update key version payload) = key
target (delete key) = key
target (copy from to) = to
target (copy_if_not_exists from to) = to

part-set_part_other :
    {S : Type 0} (p q : StorePartition) (t : S) (s : Parts S)
    → q ≢ p
    → part q (set_part p t s) ≡ part q s
unfolding part set_part
part-set_part_other capture capture t s h = absurd (h refl)
part-set_part_other capture control t s h = refl
part-set_part_other capture routes t s h = refl
part-set_part_other control capture t s h = refl
part-set_part_other control control t s h = absurd (h refl)
part-set_part_other control routes t s h = refl
part-set_part_other routes capture t s h = refl
part-set_part_other routes control t s h = refl
part-set_part_other routes routes t s h = absurd (h refl)

module _ {S : Type 0} (classify : Bytes → Result StorePartition)
    (access : StorePartition → Option StoreAccess) (objects : StorePartition → ObjectStore S)
    (delete_in : S → Bytes → Result (Unit {0}) × S)
    (copy_in copy_new_in : S → Bytes → Bytes → Result (Unit {0}) × S) where
  -- The state after a request, whatever its result.
  unfoldable pub apply : Request → Parts S → Parts S
  apply (create key payload) s = (partitioned_create classify access objects s key payload).1
  apply (update key version payload) s =
      (partitioned_update classify access objects s key version payload).1
  apply (delete key) s =
      (partitioned_delete classify access objects delete_in copy_in copy_new_in s key).1
  apply (copy from to) s =
      (partitioned_copy classify access objects delete_in copy_in copy_new_in s from to).1
  apply (copy_if_not_exists from to) s =
      (partitioned_copy_if_not_exists classify access objects delete_in copy_in copy_new_in s from
        to).1

  unfoldable pub apply_all : List Request → Parts S → Parts S
  apply_all [] s = s
  apply_all (request ∷ rest) s = apply_all rest (apply request s)

  allowed-writable :
      (p q : StorePartition) (mode : Option StoreAccess)
      → allowed classify access objects true q mode ≡ ok p
      → (q ≡ p) × (mode ≡ some read_write)
  allowed-writable p q none h = cc
  allowed-writable p q (some read_only) h = cc
  allowed-writable p q (some read_write) h = (ok-injective h, refl)

  -- A slot that may be written is the key's, with the access that it needs.
  slot-writable :
      (key : Bytes) (p : StorePartition)
      → slot classify access objects key true ≡ ok p
      → (classify key ≡ ok p) × (access p ≡ some read_write)
  unfolding slot
  slot-writable key p h =
      let (q, e, k) = >>=-eq-ok (classify key) _ h in
      let (same, mode) = allowed-writable p q (access q) k in
      (e ∙ ap ok same, subst (λ r. access r ≡ some read_write) same mode)

  same_writable_slot-slot :
      (from to : Bytes) (p : StorePartition)
      → same_writable_slot classify access objects from to ≡ ok p
      → slot classify access objects to true ≡ ok p
  unfolding same_writable_slot
  same_writable_slot-slot from to p h =
      let (q, e, h1) = >>=-eq-ok (classify from) _ h in
      let (r, e2, h2) = >>=-eq-ok (classify to) _ h1 in
      (bail_if-eq-ok _ "cross-partition copy is forbidden" _ h2).1

  -- The partition is not the one that the slot lets the operation write.
  abbrev IsOutside : StorePartition → Result StorePartition → Type 0
  IsOutside q r = (p : StorePartition) → r ≡ ok p → q ≢ p

  in_slot-outside :
      {A : Type 0} (q : StorePartition) (failed : String → A) (r : Result StorePartition)
      (operation : ObjectStore S → S → A × S) (s : Parts S)
      → IsOutside q r
      → part q (in_slot classify access objects failed r operation s).1 ≡ part q s
  in_slot-outside q failed (err error) operation s h = refl
  in_slot-outside q failed (ok p) operation s h = part-set_part_other p q _ s (h p refl)

  slot-IsOutside :
      (q : StorePartition) (key : Bytes)
      → ((p : StorePartition) → classify key ≡ ok p → access p ≡ some read_write → q ≢ p)
      → IsOutside q (slot classify access objects key true)
  slot-IsOutside q key h p e = let (c, w) = slot-writable key p e in h p c w

  apply-outside :
      (request : Request) (q : StorePartition) (s : Parts S)
      → ((p : StorePartition)
          → classify (target request) ≡ ok p
          → access p ≡ some read_write
          → q ≢ p)
      → part q (apply request s) ≡ part q s
  unfolding apply partitioned_create partitioned_update partitioned_delete partitioned_copy
      partitioned_copy_if_not_exists
  apply-outside (create key payload) q s h =
      in_slot-outside q put_failed _ _ s (slot-IsOutside q key h)
  apply-outside (update key version payload) q s h =
      in_slot-outside q put_failed _ _ s (slot-IsOutside q key h)
  apply-outside (delete key) q s h = in_slot-outside q err _ _ s (slot-IsOutside q key h)
  apply-outside (copy from to) q s h =
      in_slot-outside q err _ _ s
        (λ p e. slot-IsOutside q to h p (same_writable_slot-slot from to p e))
  apply-outside (copy_if_not_exists from to) q s h =
      in_slot-outside q err _ _ s
        (λ p e. slot-IsOutside q to h p (same_writable_slot-slot from to p e))

  -- No sequence of requests changes a partition whose access is not that of a writer.
  pub apply_all-read_only :
      (requests : List Request) (q : StorePartition) (s : Parts S)
      → access q ≢ some read_write
      → part q (apply_all requests s) ≡ part q s
  unfolding apply_all
  apply_all-read_only [] q s h = refl
  apply_all-read_only (request ∷ rest) q s h =
      apply_all-read_only rest q (apply request s) h
      ∙ apply-outside request q s (λ p c w same. h (ap access same ∙ w))

  -- A request changes no partition but that of the key that it writes.
  pub apply-other_partition :
      (request : Request) (q : StorePartition) (s : Parts S)
      → classify (target request) ≢ ok q
      → part q (apply request s) ≡ part q s
  apply-other_partition request q s h =
      apply-outside request q s (λ p c w same. h (c ∙ ap ok (sym same)))
