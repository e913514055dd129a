-- ===== src/Vshard/Fingerprint/Tests.antt =====
-- The fingerprint of a small shard, whose two nodes go through its tables in different orders.
use Prim.Native.String.{len}
use mathlib.Core.List.Permᴰ
use qumomf.Prelude.{
  ℕ, ◌+◌, ◌*◌, String, ◌≡◌, refl, Bool, some, Option, List, [], ◌∷◌, Permᴰ, All, All-tabulate,
  if◌then◌else◌,
}
use qumomf.Prelude.Sort.{NotAbove}
use qumomf.Prelude.Sort.Insertion.{insertion}
use qumomf.Prelude.Sort.Texts.{text_lt, text_lt-antisym, text_lt-IsStrictWeak}
use qumomf.Vshard.Fingerprint.{LuaTable, Crc32, TableSort, fingerprint, fingerprint-IsSameTable}

abbrev text_less : String → String → Option Bool
text_less s t = some (text_lt s t)

abbrev Any : String → Type 0
Any s = Unit

every : (keys : List String) → All Any keys
every keys = All-tabulate Any keys (λ s m. tt)

sorted : (keys : List String) → (ys : List String) × (insertion.sort text_less keys ≡ some ys)
sorted keys = insertion.sort_total text_less Any keys (λ x y p q. (text_lt x y, refl)) (every keys)

abbrev by_characters : TableSort
by_characters = record {
  sort = λ keys. (sorted keys).0;
  le = NotAbove text_lt;
  sort_perm =
      λ keys. Permᴰ.symm (insertion.sort_perm text_less keys (sorted keys).0 (sorted keys).1);
  sort_ordered = λ keys.
      insertion.sort_ordered text_less Any text_lt keys (sorted keys).0 text_lt-IsStrictWeak
        (λ x y p q. refl) (every keys) (sorted keys).1;
  antisym = λ x y h k. text_lt-antisym x y k h;
}

abbrev digest : Crc32 ℕ
digest = record { new_digest = 0; update = λ c s. c * 31 + len s; result = λ c. c }

abbrev option : String → String
option k = if text_lt k "uri" then "storage_1" else "127.0.0.1:3301"

abbrev one : LuaTable (LuaTable String)
one = record { keys = "m" ∷ "s" ∷ []; at = λ k. record { keys = "name" ∷ "uri" ∷ []; at = option } }

abbrev other : LuaTable (LuaTable String)
other = record {
  keys = "s" ∷ "m" ∷ [];
  at = λ k. record { keys = "uri" ∷ "name" ∷ []; at = option };
}

fingerprint-IsSameTable_example :
    fingerprint digest by_characters one ≡ fingerprint digest by_characters other
fingerprint-IsSameTable_example =
    fingerprint-IsSameTable digest by_characters one other
      (∣ Permᴰ.swap refl refl ∣₁, λ k m. (∣ Permᴰ.swap refl refl ∣₁, λ x n. refl))
