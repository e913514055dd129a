-- ===== src/Api/Lookup.antt =====
-- Looking up one instance through the service.
use qumomf.Prelude.{
  String, ◌==◌, eq_iff, ◌≡◌, refl, Bool, true, false, Option, none, some, List, [], ◌∷◌, Memᴰ, All,
  ◌≢◌, if◌then◌else◌, find,
}
use qumomf.Prelude.Result.{Result, ok, err, ◌>>=◌}
use qumomf.Vshard.Instance.{InstanceUuid, ReplicaSetUuid, Instance}
use qumomf.Vshard.ReplicaSet.{ReplicaSet}
use qumomf.Vshard.Snapshot.{Snapshot, find_set, replica_set as set_of_snapshot, set_or}
use qumomf.Api.{
  Error, cluster_not_found, replica_set_not_found, instance_not_found, storage, empty_result,
  storage_failed, Storage, StorageError, or_not_found, set_or_not_found, instance_or_not_found,
  replica_set, instance,
}

module _ {A : Type 0} (p : A → Bool) where
  -- What a search has found, or that there is nothing to find.
  abbrev Found : List A → Option A → Type 0
  Found xs none = All (λ x. p x ≡ false) xs
  Found xs (some a) = Memᴰ a xs × (p a ≡ true)

  cons-Found :
      (x : A) (xs : List A) (b : Bool) (rest : Option A)
      → p x ≡ b
      → Found xs rest
      → Found (x ∷ xs) (if b then some x else rest)
  cons-Found x xs true rest e f = (Memᴰ.head refl, e)
  cons-Found x xs false none e f = (e, f)
  cons-Found x xs false (some a) e (m, k) = (Memᴰ.tail m, k)

  find-Found : (xs : List A) → Found xs (find p xs)
  unfolding find
  find-Found [] = tt
  find-Found (x ∷ xs) = cons-Found x xs (p x) (find p xs) refl (find-Found xs)

none_named :
    {A : Type 0} (name : A → String) (key : String) (xs : List A)
    → All (λ x. (name x == key) ≡ false) xs
    → All (λ x. name x ≢ key) xs
none_named name key [] h = tt
none_named name key (x ∷ xs) h =
    (λ e. differ ((eq_iff (name x) key).1 e) h.0, none_named name key xs h.1)
  where
    differ : {b : Bool} → b ≡ true → b ≡ false → ⊥
    differ t f = cc

module _ (db : Storage) (name : String) (set_uuid : ReplicaSetUuid) (uuid : InstanceUuid) where
  -- What each answer says of the storage.
  abbrev Tells : Result Error Instance → Type 0
  Tells (ok i) =
      (s : Snapshot) × (set : ReplicaSet) × (db.get_cluster_snapshot name ≡ ok s)
      × Memᴰ set s.replica_sets
      × (set.uuid ≡ set_uuid)
      × Memᴰ i set.instances
      × (i.uuid ≡ uuid)
  Tells (err cluster_not_found) = db.get_cluster_snapshot name ≡ err empty_result
  Tells (err replica_set_not_found) =
      (s : Snapshot) × (db.get_cluster_snapshot name ≡ ok s)
      × All (λ (set : ReplicaSet). set.uuid ≢ set_uuid) s.replica_sets
  Tells (err instance_not_found) =
      (s : Snapshot) × (set : ReplicaSet) × (db.get_cluster_snapshot name ≡ ok s)
      × Memᴰ set s.replica_sets
      × (set.uuid ≡ set_uuid)
      × All (λ (i : Instance). i.uuid ≢ uuid) set.instances
  Tells (err (storage e)) = db.get_cluster_snapshot name ≡ err e

  in_set :
      (s : Snapshot) (set : ReplicaSet) (o : Option Instance)
      → db.get_cluster_snapshot name ≡ ok s
      → Memᴰ set s.replica_sets
      → set.uuid ≡ set_uuid
      → Found (λ i. i.uuid == uuid) set.instances o
      → Tells (instance_or_not_found o)
  in_set s set none e m k f =
      (s, set, e, m, k, none_named (λ (i : Instance). i.uuid) uuid set.instances f)
  in_set s set (some i) e m k (n, t) = (s, set, e, m, k, n, (eq_iff i.uuid uuid).0 t)

  in_snapshot :
      (s : Snapshot) (o : Option ReplicaSet)
      → db.get_cluster_snapshot name ≡ ok s
      → Found (λ (set : ReplicaSet). set.uuid == set_uuid) s.replica_sets o
      → Tells (
          set_or_not_found (set_or o) >>= λ set.
          instance_or_not_found (find (λ i. i.uuid == uuid) set.instances))
  in_snapshot s none e f =
      (s, e, none_named (λ (set : ReplicaSet). set.uuid) set_uuid s.replica_sets f)
  in_snapshot s (some set) e (m, t) =
      in_set s set (find (λ i. i.uuid == uuid) set.instances) e m ((eq_iff set.uuid set_uuid).0 t)
        (find-Found (λ (i : Instance). i.uuid == uuid) set.instances)

  in_storage :
      (r : Result StorageError Snapshot)
      → db.get_cluster_snapshot name ≡ r
      → Tells (
          (or_not_found r >>= λ s. set_or_not_found (set_of_snapshot s set_uuid)) >>= λ set.
          instance_or_not_found (find (λ i. i.uuid == uuid) set.instances))
  unfolding set_of_snapshot find_set
  in_storage (ok s) e =
      in_snapshot s (find (λ (set : ReplicaSet). set.uuid == set_uuid) s.replica_sets) e
        (find-Found (λ (set : ReplicaSet). set.uuid == set_uuid) s.replica_sets)
  in_storage (err empty_result) e = e
  in_storage (err (storage_failed m)) e = e

  -- The service returns an instance that has the UUID, in a set of the stored snapshot that has the
  -- set's UUID; it says that there is no cluster, no set or no instance only if the storage, the
  -- snapshot or a set with that UUID has none, and passes on what else the storage reports.
  instance-Tells : Tells (instance db name set_uuid uuid)
  unfolding instance replica_set
  instance-Tells = in_storage (db.get_cluster_snapshot name) refl
