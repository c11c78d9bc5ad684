-- ===== src/Pattern/Cache.antt =====
-- `pattern.Cache`: a bounded map from channel names to results (internal/pattern/pattern.go). The
-- lock makes each method one step. The order in which `range` meets the keys is an argument.
pub mod Bound
pub mod Content
use gentis.Prelude.{
  ℕ, ◌-◌, ◌/◌, Bytes, bytes_Eq, List, [], ◌∷◌, Option, Bool, true, false, not, ◌&&◌, if◌then◌else◌,
  length, take, leb, ltb, max, lookup, insert, delete, is_some,
}

abbrev pub evict_divisor : ℕ
evict_divisor = 4

pub record Cache {ℓ} (V : Type ℓ) : Type ℓ where
  pub entries : List (Bytes × V)
  pub max_size : ℕ

module _ {ℓ} {V : Type ℓ} where
  -- `NewCache`
  unfoldable pub new_cache : ℕ → Cache V
  new_cache max_size = record { entries = []; max_size = if ltb max_size 1 then 1 else max_size }

  -- `Get`
  unfoldable pub get : Cache V → Bytes → Option V
  get c key = lookup key c.entries

  -- The keys of a list, deleted one after the other.
  unfoldable pub delete_all : List Bytes → List (Bytes × V) → List (Bytes × V)
  delete_all [] m = m
  delete_all (k ∷ ks) m = delete_all ks (delete k m)

  abbrev pub to_evict : Cache V → ℕ
  to_evict c = max (length c.entries / evict_divisor) 1

  -- `Set`, where `order` lists the keys as the loop meets them.
  unfoldable pub set : List Bytes → Cache V → Bytes → V → Cache V
  unfolding delete_all
  set order c key v =
      let full = not (is_some (lookup key c.entries)) && leb c.max_size (length c.entries) in
      let kept = if full then delete_all (take (to_evict c) order) c.entries else c.entries in
      record c { entries = insert key v kept }

  -- `Clear`
  unfoldable pub clear : Cache V → Cache V
  clear c = record c { entries = [] }
