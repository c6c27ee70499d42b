-- ===== src/Subscript/Kinds.antt =====
-- `Subscript::Type` (libs/einsum/src/dice/einsum/Subscript.hpp).
pub data SubscriptType : Type 0 where
  none : SubscriptType
  join : SubscriptType
  cartesian : SubscriptType
  resolve : SubscriptType
  count : SubscriptType
  entry_generator : SubscriptType
  carthesian_mapping : SubscriptType
