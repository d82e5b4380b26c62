-- ===== src/Json.antt =====
-- JSON values as nlohmann::json holds them, and the calls of that library that the program makes.
-- What it parses and prints is a parameter; the accessors are its documented ones.
use stmanager.Prelude.{
  codes, ltb, ◌==◌, ◌&&◌, ◌||◌, [], ◌∷◌, Text, Bool, true, false, text_eq, Option, none, some,
  if◌then◌else◌, ◌≡◌, ◌++◌,
}
use stmanager.Status.{Result, ok, threw}

-- A number is kept as its text: the program reads none. The members of an object are those of a
-- `std::map`: in the order of their names, each name once.
mutual
  pub data Json : Type 0 where
    null : Json
    boolean : Bool → Json
    number : Text → Json
    string : Text → Json
    array : Items → Json
    object : Members → Json

  pub data Items : Type 0 where
    end : Items
    item : Json → Items → Items

  pub data Members : Type 0 where
    none_left : Members
    member : Text → Json → Members → Members

-- The exceptions: a text that is no JSON, a value of another type, a string that is no UTF-8.
pub data Raised : Type 0 where
  parse_error : Text → Raised
  type_error : Json → Raised
  dump_error : Json → Raised

pub record JsonLibrary : Type 0 where
  -- `json::parse` of a whole text; `none` if it throws
  pub parse : Text → Option Json
  -- `stream >> value`, which reads a value at the beginning
  pub read_value : Text → Option Json
  -- `dump()` and `dump(2)`
  pub dump : Json → Option Text
  pub dump_indented : Json → Option Text
  pub what : Raised → Text

unfoldable pub find_member : Text → Members → Option Json
find_member key none_left = none
find_member key (member name value rest) =
    if text_eq name key then some value else find_member key rest

abbrev pub is_object : Json → Bool
is_object (object _) = true
is_object _ = false

-- `contains` and `operator[]`, which is only called on a name that is there.
unfoldable pub find : Text → Json → Option Json
unfolding find_member
find key (object members) = find_member key members
find key _ = none

-- A member that must be a string: `contains(key) && j[key].is_string()`, then `get`.
abbrev pub as_string : Option Json → Option Text
as_string (some (string s)) = some s
as_string _ = none

abbrev pub as_array : Option Json → Option Items
as_array (some (array items)) = some items
as_array _ = none

abbrev pub as_object : Option Json → Option Members
as_object (some (object members)) = some members
as_object _ = none

module _ (lib : JsonLibrary) where
  -- `value(key, default)` with a string: a member of another type throws.
  unfoldable pub value_string : Text → Text → Json → Result Text
  value_string key default j = elim (find key j) [
    | none ↦ ok default
    | some (string s) ↦ ok s
    | some other ↦ threw (lib.what (type_error other))
  ]

  -- `value(key, default)` with a Boolean.
  unfoldable pub value_boolean : Text → Bool → Json → Result Bool
  value_boolean key default j = elim (find key j) [
    | none ↦ ok default
    | some (boolean b) ↦ ok b
    | some other ↦ threw (lib.what (type_error other))
  ]

  abbrev pub dumped : Json → Option Text → Result Text
  dumped j none = threw (lib.what (dump_error j))
  dumped j (some text) = ok text

  abbrev pub parsed : Text → Option Json → Result Json
  parsed text none = threw (lib.what (parse_error text))
  parsed text (some j) = ok j

-- `operator<` of `std::string`, by which the members are ordered.
unfoldable pub text_lt : Text → Text → Bool
text_lt bs [] = false
text_lt [] (b ∷ bs) = true
text_lt (a ∷ as') (b ∷ bs) = ltb a b || ((a == b) && text_lt as' bs)

abbrev pub Precedes : Text → Members → Type 0
Precedes name none_left = Unit
Precedes name (member next value rest) = text_lt name next ≡ true

-- Every object in the value has its members in order, each name once.
unfoldable mutual
  pub IsOrdered : Json → Type 0
  IsOrdered (array items) = IsOrderedItems items
  IsOrdered (object members) = IsOrderedMembers members
  IsOrdered _ = Unit

  pub IsOrderedItems : Items → Type 0
  IsOrderedItems end = Unit
  IsOrderedItems (item j rest) = IsOrdered j × IsOrderedItems rest

  pub IsOrderedMembers : Members → Type 0
  IsOrderedMembers none_left = Unit
  IsOrderedMembers (member name value rest) =
      Precedes name rest × (IsOrdered value × IsOrderedMembers rest)

-- What the library says of printing: a text that it printed is read back as the value.
pub record IsRoundTrip (lib : JsonLibrary) : Type 0 where
  pub parse-dump : (j : Json) (t : Text) → IsOrdered j → lib.dump j ≡ some t → lib.parse t ≡ some j
  pub read_value-dump_indented :
      (j : Json) (t : Text)
      → IsOrdered j
      → lib.dump_indented j ≡ some t
      → lib.read_value (t ++ codes "\n") ≡ some j
