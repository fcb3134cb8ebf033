-- ===== src/Common/Keys.antt =====
-- The keys of a `Map`, and `delete`.
use Prim.Native.Nat.{suc, ◌≤◌, ◌<◌}
use Prim.Native.String.{String}
use mathlib.Core.Path.{◌≡◌, refl}
use mathlib.Core.Bool.{true, false, ◌||◌}
use mathlib.Core.List.{List, [], ◌∷◌}
use mathlib.Core.Option.{none, some}
use native.Mathlib.Omega.{arith}
use text.Mathlib.Text.{◌==◌}
use text.Mathlib.TextEquality.{eq_iff}
use package.cmap.Common.Tests.{if◌then◌else◌}
use package.cmap.Common.Lists.{length, includes, distinct}
use package.cmap.Common.Dicts.{Dict, get, put, has, get-put}

module _ {ℓ} {V : Type ℓ} where
  -- [...m.keys()]
  abbrev pub keys : Dict V → List String
  keys [] = []
  keys ((j, v) ∷ m) = j ∷ keys m

  -- m.delete(k)
  unfoldable pub drop : Dict V → String → Dict V
  drop [] k = []
  drop ((j, v) ∷ m) k = let rest = drop m k in if j == k then rest else (j, v) ∷ rest

  pub get-drop : (m : Dict V) (k j : String) → get (drop m k) j ≡ (if k == j then none else get m j)
  unfolding get drop
  get-drop [] k j = ground arith
  get-drop ((i, w) ∷ m) k j = ground (arith, eq_iff k j, eq_iff i k, eq_iff i j, get-drop m k j)

  pub length-drop : (m : Dict V) (k : String) → length (drop m k) ≤ length m
  unfolding drop
  length-drop [] k = omega arith
  length-drop ((i, w) ∷ m) k = ground (arith, length-drop m k)

  pub length-put : (m : Dict V) (k : String) (v : V) → length (put m k v) ≤ suc (length m)
  unfolding put
  length-put [] k v = omega arith
  length-put ((i, w) ∷ m) k v = ground (arith, length-put m k v)

  pub length-put_pos : (m : Dict V) (k : String) (v : V) → 0 < length (put m k v)
  unfolding put
  length-put_pos [] k v = omega arith
  length-put_pos ((i, w) ∷ m) k v = ground arith

  pub length-keys : (m : Dict V) → length (keys m) ≡ length m
  length-keys [] = refl
  length-keys ((i, w) ∷ m) = omega (arith, length-keys m)

  pub includes-keys : (m : Dict V) (k : String) → includes (keys m) k ≡ has m k
  unfolding get has
  includes-keys [] k = refl
  includes-keys ((i, w) ∷ m) k = ground (arith, includes-keys m k)

  pub includes-keys-put :
      (m : Dict V) (k j : String) (v : V)
      → includes (keys (put m k v)) j ≡ (k == j || includes (keys m) j)
  unfolding put
  includes-keys-put [] k j v = refl
  includes-keys-put ((i, w) ∷ m) k j v =
      ground (arith, eq_iff k j, eq_iff i k, eq_iff i j, includes-keys-put m k j v)

  pub distinct-keys-put :
      (m : Dict V) (k : String) (v : V)
      → distinct (keys m) ≡ true
      → distinct (keys (put m k v)) ≡ true
  unfolding put
  distinct-keys-put [] k v h = refl
  distinct-keys-put ((i, w) ∷ m) k v h =
      ground (arith, eq_iff i k, eq_iff k i, includes-keys-put m k i v, distinct-keys-put m k v)

  pub has-put :
      (m : Dict V) (k j : String) (v : V) → has (put m k v) j ≡ (if k == j then true else has m j)
  unfolding has
  has-put m k j v = ground (arith, get-put m k j v)

  pub has-drop :
      (m : Dict V) (k j : String) → has (drop m k) j ≡ (if k == j then false else has m j)
  unfolding has
  has-drop m k j = ground (arith, get-drop m k j)

  pub has-get : (m : Dict V) (k : String) (v : V) → get m k ≡ some v → has m k ≡ true
  unfolding has
  has-get m k v h = rw (has, h) refl
