-- ===== src/Shared/Value.antt =====
-- The Python objects that a YAML document or a JSON payload holds, as the program tells them apart.
use vaultmcp.Prelude.{ℕ, zero, suc}
use vaultmcp.Prelude.{Bool, true, false, Option, none, some, [], ◌∷◌}
use vaultmcp.Prelude.{if◌then◌else◌}
use vaultmcp.Prelude.{◌==◌, nat_Eq, list_Eq, option_Eq}
use vaultmcp.Prelude.{Text}
use vaultmcp.Prelude.Ints.{ℤ, pos, negsuc}

pub record Date : Type 0 where
  pub year : ℕ
  pub month : ℕ
  pub day : ℕ

-- A `datetime`: the day, the microseconds since midnight and, for an aware one, its UTC offset in
-- minutes plus 1440.
pub record DateTime : Type 0 where
  pub day : Date
  pub time : ℕ
  pub zone : Option ℕ

mutual
  -- `other` is any other object, of which only the truth value is used.
  pub data Value : Type 0 where
    null : Value
    bool : Bool → Value
    int : ℤ → Value
    text : Text → Value
    date : Date → Value
    datetime : DateTime → Value
    list : Items → Value
    dict : Fields → Value
    other : Bool → Value

  pub data Items : Type 0 where
    nil : Items
    cons : Value → Items → Items

  pub data Fields : Type 0 where
    end : Fields
    field : Value → Value → Fields → Fields

-- `bool(v)`, as in `v or {}`.
abbrev pub truthy : Value → Bool
truthy null = false
truthy (bool b) = b
truthy (int (pos zero)) = false
truthy (int (pos (suc n))) = true
truthy (int (negsuc n)) = true
truthy (text []) = false
truthy (text (c ∷ s)) = true
truthy (date d) = true
truthy (datetime d) = true
truthy (list nil) = false
truthy (list (cons v vs)) = true
truthy (dict end) = false
truthy (dict (field k v r)) = true
truthy (other b) = b

abbrev pub key_is : Text → Value → Bool
key_is k (text t) = t == k
key_is k _ = false

-- `d.get(k)` at a text `k`.
abbrev pub get : Fields → Text → Option Value
get end k = none
get (field j v r) k = let rest = get r k in if key_is k j then some v else rest
