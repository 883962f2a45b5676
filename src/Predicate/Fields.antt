-- ===== src/Predicate/Fields.antt =====
-- The evaluation of a predicate of internal/cache/query_predicate.go, and the fields that it reports.
use thing.Prelude.{
  Str, str, str_eq, str_eq_iff, Bool, true, ◌||◌, ◌≡◌, refl, Option, none, some, List, [], ◌∷◌,
  is_some, arith, ◌∙◌,
}
use thing.Prelude.Dict.{Dict, get, get-put, mem_str, mem_str-keys}
use thing.Query.{Result, ok, err, ◌>>=◌}
use thing.Value.{Value}
use thing.Predicate.Node.{
  Operand, Node, logical, condition, Predicate, resolve_operands, match_any, match_values,
  match_node, match_predicate, node_fields, predicate_fields,
}

-- A condition on the field occurs in the node.
abbrev pub occurs : Str → Node → Bool
occurs j (logical op l r) = occurs j l || occurs j r
occurs j (condition field operator operands) = str_eq field j

get-node_fields :
    (j : Str) (n : Node) (out : Dict Bool)
    → is_some (get j (node_fields n out)) ≡ (is_some (get j out) || occurs j n)
unfolding node_fields
get-node_fields j (logical op l r) out =
    ground (arith, get-node_fields j l out, get-node_fields j r (node_fields l out))
get-node_fields j (condition field operator operands) out = ground (arith, get-put field j true out)

module _ (t u : Str → Str → Value → Result Bool) (args : List Value) where
  match_any_agree :
      (field : Str) (vs : List Value)
      → ((operator : Str) (v : Value) → t field operator v ≡ u field operator v)
      → match_any (t field (str "=")) vs ≡ match_any (u field (str "=")) vs
  unfolding match_any
  match_any_agree field [] h = refl
  match_any_agree field (v ∷ vs) h = rw (h (str "=") v, match_any_agree field vs h)

  match_values_agree :
      (field operator : Str) (os : List Operand) (vs : List Value)
      → ((op : Str) (v : Value) → t field op v ≡ u field op v)
      → match_values t args field operator os vs ≡ match_values u args field operator os vs
  unfolding match_values
  match_values_agree field operator os [] h = refl
  match_values_agree field operator os (v ∷ vs) h =
      rw (h operator v, match_any_agree field (v ∷ vs) h)

  -- Two tests that agree on the fields of a node give the same result, errors included.
  match_node_agree :
      (n : Node)
      → ((field : Str)
          → occurs field n ≡ true
          → (op : Str) (v : Value) → t field op v ≡ u field op v)
      → match_node t args n ≡ match_node u args n
  unfolding match_node
  match_node_agree (logical op l r) h = rw (
    match_node_agree l (λ field o. h field (ground arith)),
    match_node_agree r (λ field o. h field (ground arith)),
  )
  match_node_agree (condition field operator os) h = by_values (resolve_operands args os)
    where
      by_values :
          (r : Result (List Value))
          → (r >>= match_values t args field operator os)
            ≡ (r >>= match_values u args field operator os)
      by_values (ok vs) =
          match_values_agree field operator os vs (h field (ground (arith, str_eq_iff field field)))
      by_values (err e) = refl

-- The evaluation of a predicate depends only on its fields: two tests that agree on the fields that
-- Fields reports give the same result, errors included.
pub match_predicate_agree :
    (t u : Str → Str → Value → Result Bool) (p : Predicate)
    → ((field : Str)
        → mem_str field (predicate_fields p) ≡ true
        → (op : Str) (v : Value) → t field op v ≡ u field op v)
    → match_predicate t p ≡ match_predicate u p
unfolding match_predicate predicate_fields get
match_predicate_agree t u p h = by_root p.root refl
  where
    by_root : (r : Option Node) → p.root ≡ r → match_predicate t p ≡ match_predicate u p
    by_root none e = rw e refl
    by_root (some n) e = rw e (
        match_node_agree t u p.args n λ field o.
          h field (rw e (mem_str-keys field (node_fields n []) ∙ (get-node_fields field n [] ∙ o))))
