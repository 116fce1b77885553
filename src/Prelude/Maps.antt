-- ===== src/Prelude/Maps.antt =====
-- JavaScript's `Map` with keys that are compared by `===`, as a function into `Option`.
use Prim.Native.Nat.{ℕ}
use mathlib.Core.Bool.{Bool, false, ◌&&◌}
use mathlib.Core.Option.{Option, none, some}
use ai_block.Prelude.Tests.{◌==◌, if◌then◌else◌}

module _ {ℓ} {A : Type ℓ} where
  -- A family of objects, written at one reference.
  abbrev pub update : (ℕ → A) → ℕ → A → ℕ → A
  update f k v j = if k == j then v else f j

module _ {ℓ} {A : Type ℓ} where
  abbrev pub empty_map : ℕ → Option A
  empty_map j = none

  abbrev pub insert : (ℕ → Option A) → ℕ → A → ℕ → Option A
  insert m k v = update m k (some v)

  abbrev pub delete : (ℕ → Option A) → ℕ → ℕ → Option A
  delete m k = update m k none

-- `map.get(k) === reference`
abbrev pub refers : Option ℕ → ℕ → Bool
refers none r = false
refers (some x) r = x == r

-- `if (map.get(k) === reference) map.delete(k)`
abbrev pub drop_ref : (ℕ → Option ℕ) → ℕ → ℕ → ℕ → Option ℕ
drop_ref m k r j = if k == j && refers (m k) r then none else m j
