-- ===== src/Schema/Lookups.antt =====
-- src/specflow/schema/registry.py: what a registry says after registrations.
use specflow_agent.Prelude.{
  ◌≡◌, refl, subst, ap, sym, ◌∙◌, String, true, false, none, some, List, [], ◌∷◌, Result, ok, err,
  ◌>>◌, >>=-eq-ok, raise_if, raise_if-eq-ok, Result-cases, not, ◌==◌, nat_eq, string_eq,
  if◌then◌else◌, arith, inl, inr, ◌⊎◌, Bool-cases, Option-cases,
}
use specflow_agent.Prelude.Dict.{get, put, get-put}
use specflow_agent.Prelude.Text.{is_blank}
use specflow_agent.Schema.{
  SchemaError, registry_frozen, not_a_model, empty_schema_id, SchemaModel, SchemaRegistry, register,
  freeze, add_model,
}

-- One thing that a caller does with a registry; an exception of `register` is caught.
pub data SchemaStep : Type 0 where
  try_register : String → SchemaModel → SchemaStep
  seal : SchemaStep

abbrev pub or_old : SchemaRegistry → Result SchemaError SchemaRegistry → SchemaRegistry
or_old r (ok r') = r'
or_old r (err e) = r

unfoldable pub use_registry : SchemaRegistry → List SchemaStep → SchemaRegistry
use_registry r [] = r
use_registry r (try_register schema_id model ∷ steps) =
    use_registry (or_old r (register r schema_id model)) steps
use_registry r (seal ∷ steps) = use_registry (freeze r) steps

-- What an accepted registration changes.
abbrev pub Added : SchemaRegistry → SchemaRegistry → String → String → SchemaModel → Type 0
Added r r' schema_id k model =
    (r.frozen ≡ false)
    × (r'.frozen ≡ false)
    × ((get r'.models k ≡ get r.models k)
        ⊎ ((get r.models k ≡ none) × (schema_id ≡ k) × (get r'.models k ≡ some model)))

added_new :
    (r : SchemaRegistry) (schema_id k : String) (model : SchemaModel)
    → get r.models schema_id ≡ none
    → (get (put r.models schema_id model) k ≡ get r.models k)
      ⊎ ((get r.models k ≡ none)
          × (schema_id ≡ k)
          × (get (put r.models schema_id model) k ≡ some model))
added_new r schema_id k model absent = elim (Bool-cases (schema_id == k)) [
  | inl e ↦
      let same = (string_eq.beq_iff schema_id k).0 e in
      inr (
        ap (get r.models) (sym same) ∙ absent,
        same,
        get-put r.models schema_id k model ∙ ap (λ b. if b then some model else get r.models k) e,
      )
  | inr e ↦
      inl
        (get-put r.models schema_id k model ∙ ap (λ b. if b then some model else get r.models k) e)
]

added :
    (r r' : SchemaRegistry) (schema_id k : String) (model : SchemaModel)
    → r.frozen ≡ false
    → add_model r schema_id model (get r.models schema_id) ≡ ok r'
    → Added r r' schema_id k model
added r r' schema_id k model open_now h = elim (Option-cases (get r.models schema_id)) [
  | inl absent ↦
      let same : record r { models = put r.models schema_id model } ≡ r' = cc in
      subst (λ (q : SchemaRegistry). Added r q schema_id k model) same
        (open_now, open_now, added_new r schema_id k model absent)
  | inr (existing, there) ↦ elim (Bool-cases (existing.identity == model.identity)) [
    | inl e ↦
        let same : r ≡ r' = ground (arith, h, there, e) in
        subst (λ (q : SchemaRegistry). Added r q schema_id k model) same
          (open_now, open_now, inl refl)
    | inr e ↦ ground (arith, h, there, e)
  ]
]

frozen_again : (r : SchemaRegistry) → r.frozen ≡ true → freeze r ≡ r
unfolding freeze
frozen_again r closed = ground arith

pub register-get :
    (r r' : SchemaRegistry) (schema_id k : String) (model : SchemaModel)
    → register r schema_id model ≡ ok r'
    → Added r r' schema_id k model
unfolding register
register-get r r' schema_id k model h =
    let not_model = not model.is_base_model in
    let add = add_model r schema_id model (get r.models schema_id) in
    let (u, open_now, h1) =
      >>=-eq-ok (raise_if r.frozen registry_frozen)
        (λ _.
          raise_if not_model not_a_model >> (raise_if (is_blank schema_id) empty_schema_id >> add))
        h in
    let (v, is_model, h2) =
      >>=-eq-ok (raise_if not_model not_a_model)
        (λ _. raise_if (is_blank schema_id) empty_schema_id >> add) h1 in
    let (w, named, h3) = >>=-eq-ok (raise_if (is_blank schema_id) empty_schema_id) (λ _. add) h2 in
    added r r' schema_id k model (raise_if-eq-ok r.frozen registry_frozen open_now) h3

try-Stable :
    (r : SchemaRegistry) (schema_id : String) (new : SchemaModel) (k : String) (model : SchemaModel)
    → (get r.models k ≡ some model
        → get (or_old r (register r schema_id new)).models k ≡ some model)
      × (r.frozen ≡ true → or_old r (register r schema_id new) ≡ r)
try-Stable r schema_id new k model = elim (Result-cases (register r schema_id new)) [
  | inr (e, h) ↦
      let same = ap (or_old r) h in
      (λ before. ap (λ (q : SchemaRegistry). get q.models k) same ∙ before, λ sealed. same)
  | inl (r', h) ↦
      let same = ap (or_old r) h in
      let (was_open, still_open, found) = register-get r r' schema_id k new h in
      (
        λ before.
            ap (λ (q : SchemaRegistry). get q.models k) same
            ∙ elim found [ inl kept ↦ kept ∙ before | inr (absent, name, now) ↦ cc ],
        λ sealed. cc,
      )
]

-- A model that was registered stays the one of its id, whatever is done with the registry, and a
-- frozen registry stays as it is.
pub use_registry-Stable :
    (r : SchemaRegistry) (steps : List SchemaStep) (k : String) (model : SchemaModel)
    → (get r.models k ≡ some model → get (use_registry r steps).models k ≡ some model)
      × (r.frozen ≡ true → use_registry r steps ≡ r)
unfolding use_registry freeze
use_registry-Stable r [] k model = (λ h. h, λ h. refl)
use_registry-Stable r (try_register schema_id new ∷ steps) k model =
    let next = or_old r (register r schema_id new) in
    let (kept, closed) = try-Stable r schema_id new k model in
    let later = use_registry-Stable next steps k model in
    (
      λ before. later.0 (kept before),
      λ sealed.
          later.1 (ap (λ (q : SchemaRegistry). q.frozen) (closed sealed) ∙ sealed) ∙ closed sealed,
    )
use_registry-Stable r (seal ∷ steps) k model =
    let later = use_registry-Stable (freeze r) steps k model in
    (later.0, λ closed. later.1 refl ∙ frozen_again r closed)
