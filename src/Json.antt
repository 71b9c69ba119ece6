-- ===== src/Json.antt =====
-- Values of JSON as the program reads them. An object keeps the order of its keys; a number is known
-- by its value if it is a natural number, and by its numeral otherwise.

use wardroom.Base.{
  ℕ, String, Bool, true, ◌&&◌, Option, none, some, List, [], ◌∷◌, ◌++◌, if◌then◌else◌, is_some, any,
  ◌===◌,
}

mutual
  pub data Value : Type 0 where
    null : Value
    boolean : Bool → Value
    whole : ℕ → Value
    other_number : (numeral : String) → Value
    text : String → Value
    array : Items → Value
    object : Fields → Value

  pub data Items : Type 0 where
    nil : Items
    cons : Value → Items → Items

  pub data Fields : Type 0 where
    end : Fields
    field : String → Value → Fields → Fields

-- `record[key]`, where a missing key is `undefined`.
unfoldable pub get : String → Fields → Option Value
get k end = none
get k (field j v fs) = if j === k then some v else get k fs

unfoldable pub keys : Fields → List String
keys end = []
keys (field k v fs) = k ∷ keys fs

unfoldable pub contains : List String → String → Bool
contains ks k = any (λ j. j === k) ks

abbrev pub every {ℓ} : {A : Type ℓ} → (A → Bool) → List A → Bool
every p [] = true
every p (x ∷ xs) = p x && every p xs

-- No key but the required and the optional ones, and all the required ones.
unfoldable pub exact_keys : Fields → List String → List String → Bool
unfolding keys contains get
exact_keys fs required optional =
    every (contains (required ++ optional)) (keys fs) && every (λ k. is_some (get k fs)) required
