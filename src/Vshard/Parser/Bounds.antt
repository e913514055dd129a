-- ===== src/Vshard/Parser/Bounds.antt =====
-- The numbers of a reply fit in 64 bits, and so do the numbers that the parser makes of them.
use qumomf.Prelude.{
  ℕ, ◌<◌, ◌^◌, String, ◌==◌, ◌≡◌, refl, Bool-cases, inl, inr, Option, none, some, List, [], ◌∷◌,
  All, arith,
}
use mathlib.Core.Path.{subst}
use qumomf.Prelude.Int.{ℤ, IsInt64, int64_of_uint64-IsInt64, uint64_of_int64-lt}
use qumomf.Prelude.Result.{ok, err, ◌>>=◌, >>=-eq_ok}
use qumomf.Vshard.Instance.{Instance}
use qumomf.Vshard.Parser.Value.{
  as_int64, as_uint64, Value, nil, int64, uint64, array, container, Values, done, item, Fields,
  no_fields, field, Read, find_field, get, cast_to_container, get_int64, get_uint64, get_string,
}
use qumomf.Vshard.Parser.Replication.{
  int64_if, parse_upstream, parse_downstream, read_instance, read_instances, parse_replication,
}

abbrev mutual
  pub InRange : Value → Type 0
  InRange (int64 z) = IsInt64 z
  InRange (uint64 n) = n < 2 ^ 64
  InRange (array vs) = ItemsInRange vs
  InRange (container c) = FieldsInRange c
  InRange _ = Unit

  pub ItemsInRange : Values → Type 0
  ItemsInRange done = Unit
  ItemsInRange (item v vs) = InRange v × ItemsInRange vs

  pub FieldsInRange : Fields → Type 0
  FieldsInRange no_fields = Unit
  FieldsInRange (field k v c) = InRange v × FieldsInRange c

-- The numbers that an instance has from the reply.
abbrev pub FitsWords : Instance → Type 0
FitsWords i = (i.id < 2 ^ 64) × IsInt64 i.lsn × IsInt64 i.lsn_behind_master

ok_eq : {A : Type 0} {a b : A} → ◌≡◌ {A = Read A} (ok a) (ok b) → a ≡ b
ok_eq h = cc

get-InRange : (c : Fields) (key : String) → FieldsInRange c → InRange (get c key)
unfolding get find_field
get-InRange no_fields key h = tt
get-InRange (field k v c) key h = elim (Bool-cases (k == key)) [
  | inl e ↦ rw e h.0
  | inr e ↦ rw e (get-InRange c key h.1)
]

get_int64-IsInt64 :
    (c : Fields) (key : String) {z : ℤ} → FieldsInRange c → get_int64 c key ≡ ok z → IsInt64 z
unfolding get_int64
get_int64-IsInt64 c key {z} h e = at (get c key) (get-InRange c key h) e
  where
    at : (v : Value) → InRange v → as_int64 key v ≡ ok z → IsInt64 z
    at (int64 t) r p = subst IsInt64 (ok_eq p) r
    at (uint64 t) r p = subst IsInt64 (ok_eq p) (int64_of_uint64-IsInt64 t r)
    at _ r p = cc

get_uint64-lt :
    (c : Fields) (key : String) {n : ℕ} → FieldsInRange c → get_uint64 c key ≡ ok n → n < 2 ^ 64
unfolding get_uint64
get_uint64-lt c key {n} h e = at (get c key) (get-InRange c key h) e
  where
    at : (v : Value) → InRange v → as_uint64 key v ≡ ok n → n < 2 ^ 64
    at (int64 t) r p = subst (λ m. m < 2 ^ 64) (ok_eq p) (uint64_of_int64-lt t r)
    at (uint64 t) r p = subst (λ m. m < 2 ^ 64) (ok_eq p) r
    at _ r p = cc

int64_if-IsInt64 :
    (v : Option Value) (c : Fields) (key : String) {z : ℤ}
    → FieldsInRange c
    → int64_if v c key ≡ ok z
    → IsInt64 z
int64_if-IsInt64 none c key h e = subst IsInt64 (ok_eq e) (omega arith, omega arith)
int64_if-IsInt64 (some v) c key h e = get_int64-IsInt64 c key h e

read_instance-FitsWords :
    (v : Value) {i : Instance} → InRange v → read_instance v ≡ ok i → FitsWords i
unfolding read_instance cast_to_container
read_instance-FitsWords v {i} r h =
    let (c, h1, k1) = >>=-eq_ok (cast_to_container v) _ h in
    let (id, h2, k2) = >>=-eq_ok (get_uint64 c "id") _ k1 in
    let (uuid, h3, k3) = >>=-eq_ok (get_string c "uuid") _ k2 in
    let (lsn, h4, k4) = >>=-eq_ok (get_int64 c "lsn") _ k3 in
    let (behind, h5, k5) =
      >>=-eq_ok (int64_if (find_field c "lsn_behind_master") c "lsn_behind_master") _ k4 in
    let (u, h6, k6) = >>=-eq_ok (parse_upstream c) _ k5 in
    let (d, h7, k7) = >>=-eq_ok (parse_downstream c) _ k6 in
    let ranges = inside v r h1 in
    subst FitsWords (ok_eq k7) (
      get_uint64-lt c "id" ranges h2,
      get_int64-IsInt64 c "lsn" ranges h4,
      int64_if-IsInt64 (find_field c "lsn_behind_master") c "lsn_behind_master" ranges h5,
    )
  where
    inside : (v : Value) {c : Fields} → InRange v → cast_to_container v ≡ ok c → FieldsInRange c
    inside (container c) r p = subst FieldsInRange (ok_eq p) r
    inside _ r p = cc

both_fit :
    (m : Read Instance) (r : Read (List Instance)) {is : List Instance}
    → (m >>= λ i. r >>= λ js. ok (i ∷ js)) ≡ ok is
    → ((i : Instance) → m ≡ ok i → FitsWords i)
    → ((js : List Instance) → r ≡ ok js → All FitsWords js)
    → All FitsWords is
both_fit (ok i) (ok js) h p q = subst (All FitsWords) {x = i ∷ js} (ok_eq h) (p i refl, q js refl)
both_fit (ok i) (err e) h p q = cc
both_fit (err e) r h p q = cc

read_instances-FitsWords :
    (vs : Values) {is : List Instance}
    → ItemsInRange vs
    → read_instances vs ≡ ok is
    → All FitsWords is
unfolding read_instances
read_instances-FitsWords done r h = subst (All FitsWords) {x = []} (ok_eq h) tt
read_instances-FitsWords (item nil vs) r h = read_instances-FitsWords vs r.1 h
read_instances-FitsWords (item v vs) r h =
    both_fit (read_instance v) (read_instances vs) h (λ i e. read_instance-FitsWords v r.0 e)
      (λ js e. read_instances-FitsWords vs r.1 e)

-- If the numbers of a reply fit in 64 bits, then so do the id, the LSN and the distance to the
-- master of every instance that is read from it, although they change between signed and unsigned.
pub parse_replication-FitsWords :
    (v : Value) (vs : Values) (rest : List Values) {is : List Instance}
    → ItemsInRange (item v vs)
    → parse_replication (item v vs ∷ rest) ≡ ok is
    → All FitsWords is
unfolding parse_replication
parse_replication-FitsWords v vs rest r h = read_instances-FitsWords (item v vs) r h
