-- ===== src/Tests/Stores.antt =====
-- A collection that is a list, and conversions that keep what has their type.
use monopoly_be.Prelude.{
  refl, Bool, not, String, List, [], ◌∷◌, ◌++◌, any, filterb, if◌then◌else◌, ℤ, Result, ok, err,
  value_error,
}
use monopoly_be.Store.{Collection, IsCollection, find_first, update_first, remove_first}
use monopoly_be.Payload.{Scalar, text, number, moment, Conversions, IsConversions}
use mathlib.Core.Option
use monopoly_be.Prelude.{is_some}

abbrev pub listed : {D : Type 0} → (D → D → Bool) → Collection D
listed {D = D} conflicts = record {
  State = List D;
  find_one = λ query docs. find_first query docs;
  find = λ query docs. filterb query docs;
  insert_one = λ d docs.
      (not (any (conflicts d) docs), if any (conflicts d) docs then docs else docs ++ (d ∷ []));
  find_one_and_update = λ query change docs.
      (Option.map change (find_first query docs), update_first query change docs);
  delete_one = λ query docs. (is_some (find_first query docs), remove_first query docs);
}

abbrev pub listed-IsCollection :
    {D : Type 0} (conflicts : D → D → Bool) → IsCollection conflicts (listed conflicts)
listed-IsCollection conflicts = record {
  documents = λ docs. docs;
  find_one_lem = λ query docs. refl;
  find_lem = λ query docs. refl;
  insert_one_reply = λ d docs. refl;
  insert_one_documents = λ d docs. refl;
  update_reply = λ query change docs. refl;
  update_documents = λ query change docs. refl;
  delete_one_documents = λ query docs. refl;
}

abbrev string_of : Scalar → String
string_of (text s) = s
string_of _ = ""

abbrev int_of : Scalar → Result ℤ
int_of (number n) = ok n
int_of _ = err value_error

abbrev datetime_of : Scalar → Result ℤ
datetime_of (moment t) = ok t
datetime_of _ = err value_error

abbrev pub plain : Conversions
plain = record { str = string_of; int = int_of; datetime = datetime_of }

pub plain-IsConversions : IsConversions plain
plain-IsConversions = record {
  str_text = λ s. refl;
  int_number = λ n. refl;
  datetime_moment = λ t. refl;
}
