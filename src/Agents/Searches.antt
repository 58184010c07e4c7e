-- ===== src/Agents/Searches.antt =====
-- agents/retrieval.py, `RetrievalAgent.execute`: what it returns, and when it raises.
use enterprise_multi_agent_o.Base.{
  ℕ, zero, suc, String, ◌≡◌, refl, ◌⊎◌, inl, inr, false, Option, none, some, List, [], ◌∷◌, ◌++◌,
  map, ==-cases, subst, ◌∙◌, sym, ap, string_eq, nat_eq, arith,
}
use mathlib.Core.List.{append-nil, append_assoc}
use enterprise_multi_agent_o.Core.Types.{Payload, Value, nonempty}
use enterprise_multi_agent_o.Base.Text.{strip_text}
use enterprise_multi_agent_o.Core.Task.{Task}
use enterprise_multi_agent_o.Core.State.{OrchestrationState, add_retrieved_context}
use enterprise_multi_agent_o.Errors.{
  Exception, orchestrator_error, other, cancelled, Result, ok, raises, Result-cases,
}
use enterprise_multi_agent_o.Agents.Result.{success_result, failure_result}
use enterprise_multi_agent_o.Agents.ToolExecution.{get_value}
use enterprise_multi_agent_o.Agents.Queries.{
  IsQuery, IsAsked, query_value-IsQuery, top_k_value-IsTopK, input_data-IsFilters,
  new_query-IsAsked,
}
use enterprise_multi_agent_o.Agents.Retrieval.{
  ScoredDocument, RetrievalQuery, RetrievalResult, serialize_all, add_all_context, query_value,
  top_k_value, validate_query, new_query, on_retrieved, execute_retrieval, query_of_fields,
}
use enterprise_multi_agent_o.Agents.Answers.{
  is_text, is_dict_or_none, entry_of, IsMalformed, SearchOutcomes,
}

context_lem :
    (now : ℕ) (items : List Payload) (s : OrchestrationState)
    → (add_all_context now items s).retrieved_context ≡ s.retrieved_context ++ items
unfolding add_all_context add_retrieved_context
context_lem now [] s = sym (append-nil s.retrieved_context)
context_lem now (item ∷ items) s =
    context_lem now items (add_retrieved_context now item s)
    ∙ append_assoc s.retrieved_context (item ∷ []) items

serialize_all-entries : (ms : List ScoredDocument) → serialize_all ms ≡ map entry_of ms
unfolding serialize_all
serialize_all-entries [] = refl
serialize_all-entries (m ∷ ms) = ap (λ es. entry_of m ∷ es) (serialize_all-entries ms)

module _ (attribute_error : Value → String) (as_int : Value → Option ℕ) (invalid_query : String)
    (list_value : List Payload → Value) (retrieve : RetrievalQuery → Result RetrievalResult) where
  validate_query-text :
      (v : Value) (x : Exception)
      → validate_query attribute_error v ≡ raises x
      → (is_text v ≡ false) × ((message : String) × (x ≡ other message))
  unfolding validate_query
  validate_query-text Value.null x h = (refl, (attribute_error Value.null, ground (arith, h)))
  validate_query-text (Value.bool b) x h =
      (refl, (attribute_error (Value.bool b), ground (arith, h)))
  validate_query-text (Value.num n) x h = (refl, (attribute_error (Value.num n), ground (arith, h)))
  validate_query-text (Value.str q) x h = absurd (ground (arith, h))
  validate_query-text (Value.obj f) x h = (refl, (attribute_error (Value.obj f), ground (arith, h)))

  query_of_fields-raises :
      (q : String) (o : Option ℕ) (f : Value) (x : Exception)
      → query_of_fields invalid_query q o f ≡ raises x
      → ((o ≡ none) ⊎ (o ≡ some 0) ⊎ (is_dict_or_none f ≡ false)) × (x ≡ other invalid_query)
  unfolding query_of_fields
  query_of_fields-raises q none f x h = (inl refl, ground (arith, h))
  query_of_fields-raises q (some zero) f x h = (inr (inl refl), ground (arith, h))
  query_of_fields-raises q (some (suc n)) Value.null x h = absurd (ground (arith, h))
  query_of_fields-raises q (some (suc n)) (Value.obj d) x h = absurd (ground (arith, h))
  query_of_fields-raises q (some (suc n)) (Value.bool b) x h = (inr (inr refl), ground (arith, h))
  query_of_fields-raises q (some (suc n)) (Value.num m) x h = (inr (inr refl), ground (arith, h))
  query_of_fields-raises q (some (suc n)) (Value.str t) x h = (inr (inr refl), ground (arith, h))

  new_query-raises :
      (q : String) (k f : Value) (x : Exception)
      → new_query as_int invalid_query q k f ≡ raises x
      → ((as_int k ≡ none) ⊎ (as_int k ≡ some 0) ⊎ (is_dict_or_none f ≡ false))
        × (x ≡ other invalid_query)
  unfolding new_query
  new_query-raises q k f x h = query_of_fields-raises q (as_int k) f x h

  validate_query-asks :
      (v : Value) (q : String) → validate_query attribute_error v ≡ ok (some q) → v ≡ Value.str q
  unfolding validate_query
  validate_query-asks Value.null q h = absurd (ground (arith, h))
  validate_query-asks (Value.bool b) q h = absurd (ground (arith, h))
  validate_query-asks (Value.num n) q h = absurd (ground (arith, h))
  validate_query-asks (Value.str x) q h = ground (arith, h)
  validate_query-asks (Value.obj f) q h = absurd (ground (arith, h))

  validate_query-blank :
      (v : Value)
      → validate_query attribute_error v ≡ ok none
      → (q : String) × (v ≡ Value.str q) × (strip_text q ≡ "")
  unfolding validate_query nonempty
  validate_query-blank Value.null h = absurd (ground (arith, h))
  validate_query-blank (Value.bool b) h = absurd (ground (arith, h))
  validate_query-blank (Value.num n) h = absurd (ground (arith, h))
  validate_query-blank (Value.str x) h = elim (==-cases (strip_text x) "") [
    | inl (_, blank) ↦ (x, refl, blank)
    | inr (e, _) ↦ absurd (ground (arith, h, e))
  ]
  validate_query-blank (Value.obj f) h = absurd (ground (arith, h))

  on_retrieved-Outcomes :
      (now : ℕ) (query : RetrievalQuery) (s : OrchestrationState) (t : Task)
      (x : Result RetrievalResult)
      → IsAsked as_int s t query
      → retrieve query ≡ x
      → SearchOutcomes as_int list_value retrieve s t (on_retrieved list_value now query s x)
  unfolding on_retrieved success_result failure_result
  on_retrieved-Outcomes now query s t (ok found) asked h =
      let entries_same = serialize_all-entries found.matches in
      inl (
        query,
        found,
        asked,
        h,
        (
          _,
          refl,
          refl,
          ap
              (λ es. some (
                ("query", Value.str query.query)
                ∷ ("matches", list_value es)
                ∷ ("total_found", Value.num found.total_found)
                ∷ []))
              entries_same,
          context_lem now (serialize_all found.matches) s
              ∙ ap (λ es. s.retrieved_context ++ es) entries_same,
        ),
      )
  on_retrieved-Outcomes now query s t (raises (orchestrator_error e)) asked h =
      inr (inl (_, refl, refl, refl, inr (query, orchestrator_error e, asked, h, λ c. cc)))
  on_retrieved-Outcomes now query s t (raises (other m)) asked h =
      inr (inl (_, refl, refl, refl, inr (query, other m, asked, h, λ c. cc)))
  on_retrieved-Outcomes now query s t (raises cancelled) asked h =
      inr (inr (inl (refl, refl, (query, asked, h))))

  malformed :
      (s : OrchestrationState) (t : Task)
      → (as_int (top_k_value t.input_data) ≡ none)
        ⊎ (as_int (top_k_value t.input_data) ≡ some 0)
        ⊎ (is_dict_or_none (get_value "filters" t.input_data) ≡ false)
      → IsMalformed as_int s t
  malformed s t (inl e) = inr (inl (_, top_k_value-IsTopK t, inl e))
  malformed s t (inr (inl e)) = inr (inl (_, top_k_value-IsTopK t, inr e))
  malformed s t (inr (inr e)) = inr (inr (_, input_data-IsFilters t, e))

  -- The retrieval agent asks the store for the task's query, or for the run's request where the
  -- task has none, with the number of matches and the filters of the task. It either succeeds, with
  -- the matches that the store found at the end of the run's context and in the result; or it fails
  -- and leaves the state as it was, for a blank query or an exception of the store; or it passes on
  -- a cancellation of the store; or it raises, for a query that is not a text, a number of matches
  -- that is not a positive integer, or filters that are no dict.
  pub execute_retrieval-Outcomes :
      (now : ℕ) (s : OrchestrationState) (t : Task)
      → SearchOutcomes as_int list_value retrieve s t
          (execute_retrieval attribute_error as_int invalid_query list_value retrieve now s t)
  unfolding execute_retrieval failure_result
  execute_retrieval-Outcomes now s t =
      elim (Result-cases (validate_query attribute_error (query_value s t))) [
        | inr (x, e) ↦
            let (no_text, (message, same)) = validate_query-text (query_value s t) x e in
            rw (execute_retrieval, e)
              (inr (
                inr (
                  inr (
                    message,
                    ap (λ y. raises y) same,
                    refl,
                    inl (_, query_value-IsQuery s t, no_text),
                  ))))
        | inl (none, e) ↦
            let (q, text, blank) = validate_query-blank (query_value s t) e in
            rw (execute_retrieval, e)
              (inr (
                inl (
                  _,
                  refl,
                  refl,
                  refl,
                  inl (q, subst (IsQuery s t) text (query_value-IsQuery s t), blank),
                )))
        | inl (some q, e) ↦
            elim (Result-cases (
              new_query as_int invalid_query q (top_k_value t.input_data)
                (get_value "filters" t.input_data))) [
                  | inr (x, f) ↦
                      let (why, same) =
                        new_query-raises q (top_k_value t.input_data)
                          (get_value "filters" t.input_data) x f in
                      rw (execute_retrieval, e, f)
                        (inr (
                          inr (
                            inr (invalid_query, ap (λ y. raises y) same, refl, malformed s t why))))
                  | inl (query, f) ↦
                      let asked =
                        new_query-IsAsked as_int invalid_query s t q query
                          (validate_query-asks (query_value s t) q e) f in
                      rw (execute_retrieval, e, f)
                        (on_retrieved-Outcomes now query s t (retrieve query) asked refl)
                ]
      ]
