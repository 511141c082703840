-- ===== src/Json/Instance.antt =====
-- Trees with their code are such a library, so the hypotheses on cJSON can be met.
use push_server.Base.{refl}
use push_server.Json.{JsonLibrary}
use push_server.Json.Tree.{
  Value, number, string, array, object, Items, nil, Fields, end, snoc, add, item_of, string_of,
  int_of, children_of, item-add, items-snoc,
}
use push_server.Json.Code.{code, read, read-code}

abbrev pub trees : JsonLibrary
trees = record {
  Json = Value;
  Object = Fields;
  Array = Items;
  of_object = object;
  of_array = array;
  create_object = end;
  add_item_to_object = add;
  create_array = nil;
  add_item_to_array = snoc;
  create_string = string;
  create_number = number;
  print = code;
  parse = read;
  get_object_item = item_of;
  valuestring = string_of;
  valueint = int_of;
  children = children_of;
  parse-print_object = λ o. read-code (object o);
  parse-print_array = λ a. read-code (array a);
  get_object_item-create_object = λ k. refl;
  get_object_item-add = item-add;
  get_object_item-array = λ a k. refl;
  valuestring-create_string = λ s. refl;
  valueint-create_number = λ n. refl;
  children-create_array = refl;
  children-add = items-snoc;
}
