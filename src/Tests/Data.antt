-- ===== src/Tests/Data.antt =====
-- Test data: a runtime, a table of users, its rows and its queries.
use thing.Prelude.{ℤ, pos, Str, str, true, false, none, some, List, [], ◌∷◌, ltb, ◌==◌}
use thing.Value.{Value, Runtime, IntKind}
use thing.Query.{QueryParams}
use thing.Predicate.Node.{Node, logical, condition, argument, constant, Predicate}
use thing.Match.Condition.{Row}
use thing.Index.State.{CacheIndex, new_cache_index, register_query}
use thing.Invalidate.Columns.{ModelInfo}
use thing.Invalidate.Run.{Instance, Client, ids, done}

-- A runtime whose floats are whole numbers, enough for the tests.
abbrev pub whole : Runtime
whole = record {
  parse = λ s. none;
  print = λ b. [];
  format = λ v. [];
  less = λ a b. ltb a b;
  same = λ a b. a == b;
  of_int = λ n. 0;
  to_int = λ b. pos b;
  to_uint = λ b. b;
  to_single = λ b. b;
}

abbrev pub number : ℤ → Value
number n = Value.int IntKind.int n

abbrev pub query : Str → List Value → QueryParams
query clause args = record {
  where_clause = clause;
  args = args;
  order = [];
  preloads = [];
  include_deleted = false;
}

abbrev pub mixed : QueryParams
mixed =
    query (str "age >= ? AND (name = 'O''Neil' or status not in (?, 3))")
      (number (pos 30) ∷ number (pos 2) ∷ [])

abbrev pub mixed_tree : Node
mixed_tree = logical (str "AND") (condition (str "age") (str ">=") (argument 0 ∷ [])) (
    logical (str "OR")
      (condition (str "name") (str "=") (constant (Value.text (str "O'Neil")) ∷ []))
      (condition (str "status") (str "NOT IN")
        (argument 1 ∷ constant (Value.int IntKind.int64 (pos 3)) ∷ [])))

-- The adults, and the predicate of that query.
abbrev pub adults : QueryParams
adults = query (str "age >= ?") (number (pos 18) ∷ [])

abbrev pub adult : Predicate
adult = record {
  root = some (condition (str "age") (str ">=") (argument 0 ∷ []));
  args = number (pos 18) ∷ [];
}

abbrev pub users : ModelInfo
users = record {
  table_name = str "users";
  column_to_field = (str "name", str "Name") ∷ (str "age", str "Age") ∷ [];
  compare_fields =
      record { go_name = str "Name"; db_column = str "name"; ignore_in_diff = false }
      ∷ record { go_name = str "Age"; db_column = str "age"; ignore_in_diff = false }
      ∷ [];
}

abbrev pub row_aged : ℤ → Row
row_aged age = (str "Name", Value.text (str "Ann")) ∷ (str "Age", number age) ∷ []

abbrev pub ann_aged : ℤ → Instance
ann_aged age = record { id = pos 7; row = row_aged age; keep_item = true; keep_item_fields = [] }

abbrev pub adults_key : Str
adults_key = str "list:users:adults"

abbrev pub all_key : Str
all_key = str "count:users:all"

abbrev pub adults_index : CacheIndex
adults_index = register_query whole (str "users") adults_key adults new_cache_index

-- A cache whose lists hold the identifiers given.
abbrev pub client_of : List ℤ → Client
client_of xs = record { get_query_ids = λ key. ids xs; delete = λ key. done }
