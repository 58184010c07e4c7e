-- ===== src/Agents/Queries.antt =====
-- agents/retrieval.py: what a task asks the document store.
use enterprise_multi_agent_o.Base.{
  ℕ, zero, suc, String, ◌≡◌, refl, ◌⊎◌, inl, inr, true, false, Option, none, some, [], ◌∷◌,
  ==-cases, string_eq, nat_eq, arith, subst, sym, ap, ◌∙◌, Option-cases,
}
use enterprise_multi_agent_o.Base.Dict.{lookup}
use enterprise_multi_agent_o.Core.Types.{Payload, Value, entries, nonempty}
use enterprise_multi_agent_o.Core.Task.{Task}
use enterprise_multi_agent_o.Core.State.{OrchestrationState}
use enterprise_multi_agent_o.Errors.{ok}
use enterprise_multi_agent_o.Agents.ToolExecution.{get_value, is_truthy}
use enterprise_multi_agent_o.Agents.Retrieval.{
  RetrievalQuery, query_value, top_k_value, new_query, query_of_fields,
}

-- The values that Python takes for false.
abbrev pub IsFalse : Value → Type 0
IsFalse Value.null = Unit
IsFalse (Value.bool b) = b ≡ false
IsFalse (Value.num n) = n ≡ 0
IsFalse (Value.str s) = s ≡ ""
IsFalse (Value.obj fields) = entries fields ≡ []

-- The entry of the task, or a default where there is none.
abbrev pub IsEntry : (key : String) (default : Value) → Task → Value → Type 0
IsEntry key default t v =
    (lookup key t.input_data ≡ some v) ⊎ ((lookup key t.input_data ≡ none) × (v ≡ default))

-- The query of the task, or the request of the run where it is missing or false.
abbrev pub IsQuery : OrchestrationState → Task → Value → Type 0
IsQuery s t v =
    ((lookup "query" t.input_data ≡ some v) × (IsFalse v → ⊥))
    ⊎ ((w : Value) × IsEntry "query" Value.null t w × IsFalse w × (v ≡ Value.str s.request))

abbrev pub IsTopK : Task → Value → Type 0
IsTopK = IsEntry "top_k" (Value.num 3)

abbrev pub IsFilters : Task → Value → Type 0
IsFilters = IsEntry "filters" Value.null

-- The filters of a query: none, or the entries of a dict.
abbrev pub Filters : Value → Option Payload → Type 0
Filters Value.null filters = filters ≡ none
Filters (Value.obj fields) filters = filters ≡ some (entries fields)
Filters _ filters = ⊥

-- The query that the task stands for.
pub record IsAsked (as_int : Value → Option ℕ) (s : OrchestrationState) (t : Task)
    (query : RetrievalQuery) : Type 0 where
  pub text : IsQuery s t (Value.str query.query)
  pub number : Value
  pub top_k : IsTopK t number
  pub integer : as_int number ≡ some query.top_k
  pub value : Value
  pub filters : IsFilters t value
  pub read : Filters value query.filters

truthy-cases :
    (v : Value) → (is_truthy v ≡ true) × (IsFalse v → ⊥) ⊎ (is_truthy v ≡ false) × IsFalse v
unfolding is_truthy nonempty
truthy-cases Value.null = inr (refl, tt)
truthy-cases (Value.bool true) = inl (refl, λ h. cc)
truthy-cases (Value.bool false) = inr (refl, refl)
truthy-cases (Value.num n) = elim (==-cases n 0) [
  | inl (e, zero_) ↦ inr (ground (arith, e), zero_)
  | inr (e, other_) ↦ inl (ground (arith, e), other_)
]
truthy-cases (Value.str q) = elim (==-cases q "") [
  | inl (e, empty) ↦ inr (ground (arith, e), empty)
  | inr (e, other_) ↦ inl (ground (arith, e), other_)
]
truthy-cases (Value.obj fields) = of_entries (entries fields) refl
  where
    of_entries :
        (d : Payload)
        → entries fields ≡ d
        → (is_truthy (Value.obj fields) ≡ true) × (entries fields ≡ [] → ⊥)
          ⊎ (is_truthy (Value.obj fields) ≡ false) × (entries fields ≡ [])
    of_entries [] e = inr (ground (arith, e), e)
    of_entries (x ∷ d) e = inl (ground (arith, e), λ h. ground (arith, e, h))

get_value-IsEntry :
    (key : String) (t : Task) → IsEntry key Value.null t (get_value key t.input_data)
unfolding get_value
get_value-IsEntry key t = elim (Option-cases (lookup key t.input_data)) [
  | inl nothing ↦ inr (nothing, ground (arith, nothing))
  | inr (v, found) ↦ inl (ground (arith, found))
]

pub query_value-IsQuery : (s : OrchestrationState) (t : Task) → IsQuery s t (query_value s t)
unfolding query_value
query_value-IsQuery s t =
    let v = get_value "query" t.input_data in
    elim (truthy-cases v) [
      | inr (e, falsy) ↦ inr (v, get_value-IsEntry "query" t, falsy, ground (arith, e))
      | inl (e, given) ↦ elim (get_value-IsEntry "query" t) [
        | inl found ↦
            let same : v ≡ query_value s t = ground (arith, e) in
            subst (IsQuery s t) same (inl (found, given))
        | inr (_, null) ↦ absurd (given (subst IsFalse (sym null) tt))
      ]
    ]

pub top_k_value-IsTopK : (t : Task) → IsTopK t (top_k_value t.input_data)
unfolding top_k_value
top_k_value-IsTopK t = elim (Option-cases (lookup "top_k" t.input_data)) [
  | inl nothing ↦ inr (nothing, ground (arith, nothing))
  | inr (v, found) ↦ inl (ground (arith, found))
]

pub input_data-IsFilters : (t : Task) → IsFilters t (get_value "filters" t.input_data)
input_data-IsFilters t = get_value-IsEntry "filters" t

module _ (as_int : Value → Option ℕ) (invalid_query : String) where
  query_of_fields-reads :
      (q : String) (o : Option ℕ) (f : Value) (query : RetrievalQuery)
      → query_of_fields invalid_query q o f ≡ ok query
      → (q ≡ query.query) × (o ≡ some query.top_k) × Filters f query.filters
  unfolding query_of_fields
  query_of_fields-reads q none f query h = absurd (ground (arith, h))
  query_of_fields-reads q (some zero) f query h = absurd (ground (arith, h))
  query_of_fields-reads q (some (suc n)) Value.null query h =
      (ground (arith, h), ground (arith, h), ground (arith, h))
  query_of_fields-reads q (some (suc n)) (Value.obj d) query h =
      (ground (arith, h), ground (arith, h), ground (arith, h))
  query_of_fields-reads q (some (suc n)) (Value.bool b) query h = absurd (ground (arith, h))
  query_of_fields-reads q (some (suc n)) (Value.num m) query h = absurd (ground (arith, h))
  query_of_fields-reads q (some (suc n)) (Value.str x) query h = absurd (ground (arith, h))

  pub new_query-IsAsked :
      (s : OrchestrationState) (t : Task) (q : String) (query : RetrievalQuery)
      → query_value s t ≡ Value.str q
      → new_query as_int invalid_query q
          (top_k_value t.input_data)
          (get_value "filters" t.input_data)
        ≡ ok query
      → IsAsked as_int s t query
  unfolding new_query
  new_query-IsAsked s t q query text h =
      let (same, integer, read) =
        query_of_fields-reads q (as_int (top_k_value t.input_data))
          (get_value "filters" t.input_data) query h in
      record {
        text = subst (IsQuery s t) (text ∙ ap (λ x. Value.str x) same) (query_value-IsQuery s t);
        number = top_k_value t.input_data;
        top_k = top_k_value-IsTopK t;
        integer = integer;
        value = get_value "filters" t.input_data;
        filters = input_data-IsFilters t;
        read = read;
      }
