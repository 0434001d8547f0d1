-- ===== src/Base/Map.antt =====
-- `HashMap<String, V>` as the function that `get` computes. The program looks entries up and
-- sweeps them one by one, and never depends on an order of iteration.
use v_note.Base.{Bool, String, Option, none, some, ite, str_dec, if◌then◌else◌}

abbrev pub Map {ℓ} : Type ℓ → Type ℓ
Map V = String → Option V

module _ {ℓ} {V : Type ℓ} where
  abbrev pub empty : Map V
  empty k = none

  abbrev pub insert : Map V → String → V → Map V
  insert m k v j = ite (str_dec k j) (some v) (m j)

  abbrev pub remove : Map V → String → Map V
  remove m k j = ite (str_dec k j) none (m j)

  abbrev pub keep_if : (V → Bool) → Option V → Option V
  keep_if p none = none
  keep_if p (some v) = if p v then some v else none

  -- `HashMap::retain` by a test on the value.
  abbrev pub retain_values : Map V → (V → Bool) → Map V
  retain_values m p j = keep_if p (m j)
