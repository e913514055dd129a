-- ===== src/Api/Alerting.antt =====
-- Which alerts the service lists.
use qumomf.Prelude.{
  String, ◌≡◌, refl, sym, ap, ◌∙◌, ◌↔◌, ◌≢◌, ◌⊎◌, inl, inr, List, [], ◌∷◌, ◌++◌, Memᴰ,
}
use mathlib.Core.Path.{subst}
use qumomf.Vshard.Instance.{ReplicaSetUuid, Alert, Instance}
use qumomf.Vshard.ReplicaSet.{ReplicaSet}
use qumomf.Api.{InstanceAlerts, with_instance, alerts_of_set, instance_alerts}

mem-append_cases : {A : Type 0} (xs ys : List A) {a : A} → Memᴰ a (xs ++ ys) → Memᴰ a xs ⊎ Memᴰ a ys
mem-append_cases [] ys m = inr m
mem-append_cases (x ∷ xs) ys (Memᴰ.head e) = inl (Memᴰ.head e)
mem-append_cases (x ∷ xs) ys (Memᴰ.tail m) = elim (mem-append_cases xs ys m) [
  | inl k ↦ inl (Memᴰ.tail k)
  | inr k ↦ inr k
]

mem-append_left : {A : Type 0} (xs ys : List A) {a : A} → Memᴰ a xs → Memᴰ a (xs ++ ys)
mem-append_left [] ys m = elim m [ ]
mem-append_left (x ∷ xs) ys (Memᴰ.head e) = Memᴰ.head e
mem-append_left (x ∷ xs) ys (Memᴰ.tail m) = Memᴰ.tail (mem-append_left xs ys m)

mem-append_right : {A : Type 0} (xs ys : List A) {a : A} → Memᴰ a ys → Memᴰ a (xs ++ ys)
mem-append_right [] ys m = m
mem-append_right (x ∷ xs) ys m = Memᴰ.tail (mem-append_right xs ys m)

-- The entry of an instance.
abbrev pub entry : String → ReplicaSetUuid → Instance → InstanceAlerts
entry name uuid i = record {
  cluster_name = name;
  shard_uuid = uuid;
  instance_uri = i.uri;
  alerts = i.storage_info.alerts;
}

module _ (name : String) where
  -- The entry belongs to an instance of one of the sets that has an alert.
  abbrev pub IsRaised : List ReplicaSet → InstanceAlerts → Type 0
  IsRaised sets e =
      (set : ReplicaSet) × (i : Instance) × Memᴰ set sets
      × Memᴰ i set.instances
      × (i.storage_info.alerts ≢ [])
      × (e ≡ entry name set.uuid i)

  abbrev RaisedIn : ReplicaSetUuid → List Instance → InstanceAlerts → Type 0
  RaisedIn uuid is e =
      (i : Instance) × Memᴰ i is × (i.storage_info.alerts ≢ []) × (e ≡ entry name uuid i)

  raised_in :
      (uuid : ReplicaSetUuid) (is : List Instance) (e : InstanceAlerts)
      → Memᴰ e (alerts_of_set name uuid is)
      → RaisedIn uuid is e
  unfolding alerts_of_set
  raised_in uuid [] e m = elim m [ ]
  raised_in uuid (i ∷ is) e m = at i.storage_info.alerts refl m (raised_in uuid is e)
    where
      at :
          (as' : List Alert)
          → i.storage_info.alerts ≡ as'
          → Memᴰ e (with_instance name uuid i as' (alerts_of_set name uuid is))
          → (Memᴰ e (alerts_of_set name uuid is) → RaisedIn uuid is e)
          → RaisedIn uuid (i ∷ is) e
      at [] k m rest = let (j, n, h, q) = rest m in (j, Memᴰ.tail n, h, q)
      at (a ∷ as') k (Memᴰ.head q) rest = (
        i,
        Memᴰ.head refl,
        (λ z. cc),
        q ∙ ap (λ (l : List Alert). record (entry name uuid i) { alerts = l }) (sym k),
      )
      at (a ∷ as') k (Memᴰ.tail m) rest = let (j, n, h, q) = rest m in (j, Memᴰ.tail n, h, q)

  with_head :
      (uuid : ReplicaSetUuid) (i : Instance) (as' : List Alert) (rest : List InstanceAlerts)
      → i.storage_info.alerts ≡ as'
      → i.storage_info.alerts ≢ []
      → Memᴰ (entry name uuid i) (with_instance name uuid i as' rest)
  with_head uuid i [] rest k h = absurd (h k)
  with_head uuid i (a ∷ as') rest k h =
      Memᴰ.head (ap (λ (l : List Alert). record (entry name uuid i) { alerts = l }) k)

  with_tail :
      (uuid : ReplicaSetUuid) (i : Instance) (as' : List Alert) (rest : List InstanceAlerts)
      {e : InstanceAlerts}
      → Memᴰ e rest
      → Memᴰ e (with_instance name uuid i as' rest)
  with_tail uuid i [] rest m = m
  with_tail uuid i (a ∷ as') rest m = Memᴰ.tail m

  listed_in :
      (uuid : ReplicaSetUuid) (is : List Instance) (i : Instance)
      → Memᴰ i is
      → i.storage_info.alerts ≢ []
      → Memᴰ (entry name uuid i) (alerts_of_set name uuid is)
  unfolding alerts_of_set
  listed_in uuid [] i m h = elim m [ ]
  listed_in uuid (x ∷ is) i (Memᴰ.head e) h =
      subst
        (λ j.
          Memᴰ (entry name uuid j)
            (with_instance name uuid x x.storage_info.alerts (alerts_of_set name uuid is)))
        (sym e)
        (with_head uuid x x.storage_info.alerts (alerts_of_set name uuid is) refl
          (subst (λ (j : Instance). j.storage_info.alerts ≢ []) e h))
  listed_in uuid (x ∷ is) i (Memᴰ.tail m) h =
      with_tail uuid x x.storage_info.alerts (alerts_of_set name uuid is) (listed_in uuid is i m h)

  raised :
      (sets : List ReplicaSet) (e : InstanceAlerts)
      → Memᴰ e (instance_alerts name sets)
      → IsRaised sets e
  unfolding instance_alerts
  raised [] e m = elim m [ ]
  raised (set ∷ sets) e m =
      elim (mem-append_cases (alerts_of_set name set.uuid set.instances) (instance_alerts name sets)
        m) [
          | inl k ↦
              let (i, n, h, q) = raised_in set.uuid set.instances e k in
              (set, i, Memᴰ.head refl, n, h, q)
          | inr k ↦ let (t, i, l, n, h, q) = raised sets e k in (t, i, Memᴰ.tail l, n, h, q)
        ]

  listed :
      (sets : List ReplicaSet) (set : ReplicaSet) (i : Instance)
      → Memᴰ set sets
      → Memᴰ i set.instances
      → i.storage_info.alerts ≢ []
      → Memᴰ (entry name set.uuid i) (instance_alerts name sets)
  unfolding instance_alerts
  listed [] set i m n h = elim m [ ]
  listed (x ∷ sets) set i (Memᴰ.head e) n h =
      subst (λ (t : ReplicaSet). Memᴰ (entry name t.uuid i) (instance_alerts name (x ∷ sets)))
        (sym e)
        (mem-append_left (alerts_of_set name x.uuid x.instances) (instance_alerts name sets)
          (listed_in x.uuid x.instances i (subst (λ (t : ReplicaSet). Memᴰ i t.instances) e n) h))
  listed (x ∷ sets) set i (Memᴰ.tail m) n h =
      mem-append_right (alerts_of_set name x.uuid x.instances) (instance_alerts name sets)
        (listed sets set i m n h)

  -- The alerts of a cluster's instances are listed exactly for the instances that have any, under
  -- the UUID of their replica set.
  pub instance_alerts_iff :
      (sets : List ReplicaSet) (e : InstanceAlerts)
      → Memᴰ e (instance_alerts name sets) ↔ IsRaised sets e
  instance_alerts_iff sets e = (
    raised sets e,
    λ (set, i, m, n, h, q).
        subst (λ x. Memᴰ x (instance_alerts name sets)) (sym q) (listed sets set i m n h),
  )
