-- ===== src/Tests/Json.antt =====
-- JSON values, with what the parser calls of the JSON library.
use text.Mathlib.Text.{◌==◌ as str_eq}
use multicore_simulator.Prelude.{
  ℕ, Bool, true, false, List, [], ◌∷◌, String, Option, none, some, if◌then◌else◌,
}
use multicore_simulator.Parser.Program.{JsonLibrary}

mutual
  pub data Json : Type 0 where
    number : ℕ → Json
    string : String → Json
    array : Items → Json
    object : Fields → Json

  pub data Items : Type 0 where
    end : Items
    item : Json → Items → Items

  pub data Fields : Type 0 where
    close : Fields
    field : String → Json → Fields → Fields

abbrev find_field : String → Fields → Option Json
find_field key close = none
find_field key (field name value rest) =
    let later = find_field key rest in if str_eq name key then some value else later

abbrev member : Json → String → Option Json
member (object fields) key = find_field key fields
member _ key = none

abbrev is_some : Option Json → Bool
is_some none = false
is_some (some j) = true

abbrev text_of : Json → Option String
text_of (string s) = some s
text_of _ = none

abbrev number_of : Json → Option ℕ
number_of (number n) = some n
number_of _ = none

abbrev all_items : Items → List Json
all_items end = []
all_items (item j rest) = j ∷ all_items rest

abbrev all_fields : Fields → List (String × Json)
all_fields close = []
all_fields (field name value rest) = (name, value) ∷ all_fields rest

abbrev elements_of : Json → List Json
elements_of (array xs) = all_items xs
elements_of _ = []

abbrev items_of : Json → List (String × Json)
items_of (object fields) = all_fields fields
items_of _ = []

abbrev is_text : Json → Bool
is_text (string s) = true
is_text _ = false

abbrev is_list : Json → Bool
is_list (array xs) = true
is_list _ = false

abbrev is_record : Json → Bool
is_record (object fields) = true
is_record _ = false

abbrev convert_or {ℓ} : {A : Type ℓ} → (Json → Option A) → Option Json → A → Option A
convert_or convert none default = some default
convert_or convert (some j) default = convert j

abbrev pub json : JsonLibrary Json
json = record {
  at = member;
  contains = λ j key. is_some (member j key);
  is_string = is_text;
  is_array = is_list;
  is_object = is_record;
  get_string = text_of;
  get_int = number_of;
  get_u32 = number_of;
  items = items_of;
  elements = elements_of;
  value_string = λ j key default. convert_or text_of (member j key) default;
  value_int = λ j key default. convert_or number_of (member j key) default;
  value_u64 = λ j key default. convert_or number_of (member j key) default;
}
