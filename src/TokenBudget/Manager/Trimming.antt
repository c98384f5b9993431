-- ===== src/TokenBudget/Manager/Trimming.antt =====
-- src/specflow/token_budget/manager.py: `_trim_sections` and the result of `apply`.
use specflow_agent.Prelude.{
  ℕ, ◌≡◌, refl, sym, ap, subst, ◌∙◌, ◌&&◌, keep, String, Bool, true, false, List, [], ◌∷◌, ◌++◌,
  map, not, ◌==◌, string_eq, ok, err, if◌then◌else◌, arith, inl, inr, Bool-cases, append-nil,
  append_assoc,
}
use specflow_agent.TokenBudget.Models.{
  BuiltContext, make_context, BudgetPolicy, RemovedSection, BudgetResult, BudgetError,
}
use specflow_agent.TokenBudget.Sections.{split_user_message, join_sections}
use specflow_agent.TokenBudget.Manager.{
  Section, blank_out, removal_order, estimate_context, estimate_with_sections, with_message, fits,
  report, trim_loop, trim_sections, untrimmed, check_trimmed, apply,
}

ok_of_if :
    (b : Bool) (x : BudgetResult) (e : BudgetError) (r : BudgetResult)
    → (if b then ok x else err e) ≡ ok r
    → (b ≡ true) × (x ≡ r)
ok_of_if true x e r h = (refl, cc)
ok_of_if false x e r h = cc

-- The test of a section that is kept
abbrev pub is_named : Section → Bool
is_named s = not (s.0 == "") && not (s.1 == "")

-- The sections without those of an order.
unfoldable pub blank_all : List (ℕ × Section) → List Section → List Section
blank_all [] sections = sections
blank_all (next ∷ gone) sections = blank_all gone (blank_out next.0 sections)

module _ (calculate_hash : BuiltContext → String) (policy : BudgetPolicy) where
  -- The removed sections are the first ones of the order, and when the context was trimmed its message
  -- is that of the sections without them.
  abbrev pub RemovesFirst : List (ℕ × Section) → List Section → BudgetResult → Type 0
  RemovesFirst order sections r =
      (gone : List (ℕ × Section)) × (left : List (ℕ × Section)) × (order ≡ gone ++ left)
      × (r.removed_sections ≡ map (report calculate_hash policy) gone)
      × (r.was_trimmed ≡ true
          → r.context.user_message ≡ join_sections (keep is_named (blank_all gone sections)))

  trim_loop-removed :
      (c : BuiltContext) (order : List (ℕ × Section)) (selected : List Section)
      (removed : List RemovedSection)
      → (gone : List (ℕ × Section)) × (left : List (ℕ × Section)) × (order ≡ gone ++ left)
        × ((trim_loop calculate_hash policy c order selected removed).1
            ≡ removed ++ map (report calculate_hash policy) gone)
        × ((trim_loop calculate_hash policy c order selected removed).0 ≡ blank_all gone selected)
  unfolding trim_loop blank_all
  trim_loop-removed c [] selected removed = ([], [], refl, sym (append-nil removed), refl)
  trim_loop-removed c (next ∷ order) selected removed =
      elim (Bool-cases
        (fits calculate_hash policy (estimate_with_sections calculate_hash policy c selected))) [
          | inl enough ↦ (
            [],
            next ∷ order,
            refl,
            ground (arith, enough, append-nil removed),
            ground (arith, enough),
          )
          | inr more ↦
              let (gone, left, split, same, selects) =
                trim_loop-removed c order (blank_out next.0 selected)
                  (removed ++ report calculate_hash policy next ∷ []) in
              (
                next ∷ gone,
                left,
                ap (λ o. next ∷ o) split,
                ground (
                  arith,
                  more,
                  same,
                  append_assoc removed (report calculate_hash policy next ∷ [])
                      (map (report calculate_hash policy) gone),
                ),
                ground (arith, more, selects),
              )
        ]

  -- A result of `apply` fits the budget and its counts are those of its context and of the context
  -- that came in. The message of the system stays. A context that fits comes back as it is; of one
  -- that does not, the sections that are gone are the first ones in the order of removal, and the
  -- message is that of the others.
  pub record IsBudgeted (c : BuiltContext) (r : BudgetResult) : Type 0 where
    pub within : fits calculate_hash policy r.final_estimated_tokens ≡ true
    pub final : r.final_estimated_tokens ≡ estimate_context calculate_hash policy r.context
    pub original : r.original_estimated_tokens ≡ estimate_context calculate_hash policy c
    pub system : r.context.system_message ≡ c.system_message
    pub removed :
        RemovesFirst
          (removal_order calculate_hash policy (split_user_message c.user_message))
          (split_user_message c.user_message)
          r
    pub trimmed :
        r.was_trimmed ≡ not (fits calculate_hash policy (estimate_context calculate_hash policy c))

  untrimmed-IsBudgeted :
      (c : BuiltContext)
      → fits calculate_hash policy (estimate_context calculate_hash policy c) ≡ true
      → IsBudgeted c (untrimmed calculate_hash policy c (estimate_context calculate_hash policy c))
  untrimmed-IsBudgeted c enough = record {
    within = enough;
    final = refl;
    original = refl;
    system = refl;
    removed = (
      [],
      removal_order calculate_hash policy (split_user_message c.user_message),
      refl,
      refl,
      λ no. cc,
    );
    trimmed = ground (arith, enough);
  }

  make_context-system :
      (c : BuiltContext) → (make_context calculate_hash c).system_message ≡ c.system_message
  unfolding make_context
  make_context-system c = elim (Bool-cases (c.context_hash == "")) [
    | inl e ↦ ground (arith, e)
    | inr e ↦ ground (arith, e)
  ]

  make_context-message :
      (c : BuiltContext) → (make_context calculate_hash c).user_message ≡ c.user_message
  unfolding make_context
  make_context-message c = elim (Bool-cases (c.context_hash == "")) [
    | inl e ↦ ground (arith, e)
    | inr e ↦ ground (arith, e)
  ]

  abbrev pub trimmed_result : BuiltContext → List Section × List RemovedSection → BudgetResult
  trimmed_result c (selected, removed) = record {
    context = with_message calculate_hash policy c (join_sections selected);
    policy = policy;
    original_estimated_tokens = estimate_context calculate_hash policy c;
    final_estimated_tokens =
        estimate_context calculate_hash policy
          (with_message calculate_hash policy c (join_sections selected));
    was_trimmed = true;
    removed_sections = removed;
  }

  check_trimmed-cases :
      (c : BuiltContext) (trimming : List Section × List RemovedSection) (r : BudgetResult)
      → check_trimmed calculate_hash policy c (estimate_context calculate_hash policy c) trimming
        ≡ ok r
      → (fits calculate_hash policy (
            estimate_context calculate_hash policy
              (with_message calculate_hash policy c (join_sections trimming.0)))
          ≡ true)
        × (trimmed_result c trimming ≡ r)
  unfolding check_trimmed
  check_trimmed-cases c (selected, removed) r h = ok_of_if _ _ _ r h

  check_trimmed-IsBudgeted :
      (c : BuiltContext) (r : BudgetResult)
      → fits calculate_hash policy (estimate_context calculate_hash policy c) ≡ false
      → check_trimmed calculate_hash policy c
          (estimate_context calculate_hash policy c)
          (trim_sections calculate_hash policy c (split_user_message c.user_message))
        ≡ ok r
      → IsBudgeted c r
  unfolding trim_sections
  check_trimmed-IsBudgeted c r more h =
      let sections = split_user_message c.user_message in
      let trimming = trim_sections calculate_hash policy c sections in
      let (within, same) = check_trimmed-cases c trimming r h in
      let (gone, left, split, removed, selects) =
        trim_loop-removed c (removal_order calculate_hash policy sections) sections [] in
      subst (IsBudgeted c) same (record {
        within = within;
        final = refl;
        original = refl;
        system =
            make_context-system
              (record c { user_message = join_sections trimming.0; context_hash = "" });
        removed = (
          gone,
          left,
          split,
          removed,
          λ yes.
              make_context-message
                (record c { user_message = join_sections trimming.0; context_hash = "" })
              ∙ ap (λ kept. join_sections (keep is_named kept)) selects,
        );
        trimmed = ground (arith, more);
      })

  -- What `apply` returns for a context is within the budget, with the true estimates of both contexts,
  -- and keeps the message of the system. It is trimmed exactly when the first estimate is over the
  -- budget; then its message is that of the sections without the removed ones, which are the first ones
  -- in the order of removal.
  pub apply-IsBudgeted :
      (c : BuiltContext) (r : BudgetResult) → apply calculate_hash policy c ≡ ok r → IsBudgeted c r
  unfolding apply
  apply-IsBudgeted c r h =
      elim (Bool-cases (fits calculate_hash policy (estimate_context calculate_hash policy c))) [
        | inl enough ↦
            let same : untrimmed calculate_hash policy c (estimate_context calculate_hash policy c)
                ≡ r =
              ground (arith, h, enough) in
            subst (IsBudgeted c) same (untrimmed-IsBudgeted c enough)
        | inr more ↦
            elim (Bool-cases (
              fits calculate_hash policy (
                estimate_context calculate_hash policy
                  (make_context calculate_hash (record c { user_message = "" }))))) [
                    | inl base ↦ check_trimmed-IsBudgeted c r more (ground (arith, h, more, base))
                    | inr base ↦ ground (arith, h, more, base)
                  ]
      ]
