-- ===== src/Factory.antt =====
-- DesignPatterns/Factory/factory.hpp: creation functions by key, in a `std::map`. Keys are numbers:
-- the engine's are request types, by their bit patterns.
pub mod Laws
use distributed_nas.Base.{ℕ, Bool, Option}
use mathlib.Core.Option
use distributed_nas.Base.Map.{Map, find, insert, is_new}

abbrev pub Factory : Type 0 → Type 0 → Type 0
Factory T P = Map (P → T)

module _ {T P : Type 0} where
  -- The result says whether the key was new; the map keeps the function of an old key.
  unfoldable pub add : ℕ → (P → T) → Factory T P → Bool × Factory T P
  add key create_func m = (is_new key m, insert key create_func m)

  -- `none` stands for the use of the iterator `end()`.
  unfoldable pub create : ℕ → P → Factory T P → Option T
  create key params m = Option.map (λ (f : P → T). f params) (find key m)
