-- ===== src/Messaging/Carrier.antt =====
-- `amqpHeaderCarrier` of internal/messaging/rabbitmq.go: trace context in a message's header table.
-- A table is an association list whose order stands for Go's unspecified map order.
use clusterprobe.Prelude.{
  String, Bool, Option, none, some, List, [], ◌∷◌, str_eq, str_eq_iff, if◌then◌else◌, ◌≡◌, arith,
  refl,
}

-- A header value: a text, or any other type that AMQP allows.
pub data HeaderValue : Type 0 where
  str other : String → HeaderValue

abbrev pub Table : Type 0
Table = List (String × HeaderValue)

unfoldable pub find : String → Table → Option HeaderValue
find key [] = none
find key ((k, v) ∷ rows) = if str_eq k key then some v else find key rows

abbrev as_text : Option HeaderValue → String
as_text none = ""
as_text (some (str s)) = s
as_text (some (other s)) = ""

unfoldable pub get : Table → String → String
unfolding find
get table key = as_text (find key table)

unfoldable pub set : Table → String → String → Table
set [] key value = (key, str value) ∷ []
set ((k, v) ∷ rows) key value =
    if str_eq k key then (k, str value) ∷ rows else (k, v) ∷ set rows key value

unfoldable pub keys : Table → List String
keys [] = []
keys ((k, v) ∷ rows) = k ∷ keys rows

-- After `Set`, `Get` returns the value at the key that was set, and what it returned before at any
-- other key, whatever the types of the values in the table.
pub get-set :
    (table : Table) (key value j : String)
    → get (set table key value) j ≡ (if str_eq key j then value else get table j)
unfolding get set
get-set [] key value j = ground (arith, str_eq_iff key j)
get-set ((k, v) ∷ rows) key value j =
    ground (arith, str_eq_iff key j, str_eq_iff k key, str_eq_iff k j, get-set rows key value j)

-- A key added at the end of a list that does not have it.
abbrev pub has_key : String → List String → Bool
has_key key [] = Bool.false
has_key key (k ∷ ks) = if str_eq k key then Bool.true else has_key key ks

abbrev pub add_key : String → List String → List String
add_key key [] = key ∷ []
add_key key (k ∷ ks) = if str_eq k key then k ∷ ks else k ∷ add_key key ks

-- `Set` adds its key to the keys of the table where it was absent and leaves them as they were where
-- it was present.
pub keys-set :
    (table : Table) (key value : String) → keys (set table key value) ≡ add_key key (keys table)
unfolding keys set
keys-set [] key value = refl
keys-set ((k, v) ∷ rows) key value = ground (arith, keys-set rows key value)
