-- ===== src/Runtime/Tools/Offered.antt =====
-- `selectTools`: which tools the model is offered.
use ai_receptionist.Base.{
  ◌≡◌, inl, inr, refl, ap, ◌∙◌, String, Bool, true, false, ◌&&◌, ◌||◌, not, ◌=ˢ◌, ◌==◌, ltb, List,
  [], ◌∷◌, Option, is_some, includes, keep, length, if◌then◌else◌, arith, eq_iff, Bool-cases,
}
use ai_receptionist.Runtime.State.{ConversationState}
use ai_receptionist.Runtime.Tools.{ToolRegistry, SelectedTools, distinct, is_gated, select_tools}

includes-keep :
    (p : String → Bool) (names : List String) (name : String)
    → includes (keep p names) name ≡ (includes names name && p name)
includes-keep p [] name = refl
includes-keep p (x ∷ names) name = elim (Bool-cases (x =ˢ name)) [
  | inl here ↦
      let e : x ≡ name = ground (arith, eq_iff x name) in
      ground (arith, includes-keep p names name, ap p e)
  | inr other ↦ ground (arith, includes-keep p names name)
]

includes-distinct :
    (names : List String) (name : String) → includes (distinct names) name ≡ includes names name
includes-distinct [] name = refl
includes-distinct (x ∷ names) name =
    let rest = includes-keep (λ other. not (x =ˢ other)) (distinct names) name in
    ground (arith, rest, includes-distinct names name)

-- What is left of the granted names, by the channel and the provider.
offered_among :
    (p q : String → Bool) (granted : List String) (channel_allows provider_supports : Bool)
    (name : String)
    → includes
        (if◌then◌else◌ {A = SelectedTools}
          (length granted == 0 || not channel_allows)
          (record { descriptors = []; downgraded = false; gated = [] })
          (if◌then◌else◌ {A = SelectedTools}
            (not provider_supports)
            (record {
              descriptors = [];
              downgraded = ltb 0 (length (keep p granted));
              gated = keep q granted;
            })
            (record {
              descriptors = keep p granted;
              downgraded = false;
              gated = keep q granted;
            }))).descriptors
        name
      ≡ (includes granted name && (channel_allows && (provider_supports && p name)))
offered_among p q [] channel_allows provider_supports name = refl
offered_among p q (x ∷ granted) false provider_supports name = ground arith
offered_among p q (x ∷ granted) true false name = ground arith
offered_among p q (x ∷ granted) true true name =
    let some_granted : (length (x ∷ granted) == 0) ≡ false = ground arith in
    ground (arith, some_granted, includes-keep p (x ∷ granted) name)

module _ {Args : Type 0} (sort : List String → List String)
    (sort_keeps : (names : List String) (name : String)
      → includes (sort names) name ≡ includes names name)
    (registry : ToolRegistry Args) (relevant : Option (List String))
    (state : ConversationState) where
  -- A tool is offered exactly when it is granted, bound and defined, the channel allows actions, the
  -- provider takes native tools, and neither the intent of the conversation nor a precondition gates it.
  pub select_tools_eq :
      (granted_ids : List String) (channel_allows provider_supports : Bool) (name : String)
      → includes
          (select_tools sort registry relevant state granted_ids channel_allows
            provider_supports).descriptors
          name
        ≡ (includes granted_ids name
            && (includes registry.bound_names name
                && (channel_allows
                    && (provider_supports
                        && (not (is_gated sort registry relevant state name)
                            && is_some (registry.definition name))))))
  unfolding select_tools
  select_tools_eq granted_ids channel_allows provider_supports name =
      let bound : String → Bool = λ other. includes registry.bound_names other in
      let ungated : String → Bool = λ other.
        not (is_gated sort registry relevant state other) && is_some (registry.definition other) in
      let granted = sort (keep bound (distinct granted_ids)) in
      let found =
        sort_keeps (keep bound (distinct granted_ids)) name
        ∙ includes-keep bound (distinct granted_ids) name
        ∙ ap (λ b. b && bound name) (includes-distinct granted_ids name) in
      offered_among ungated (is_gated sort registry relevant state) granted channel_allows
        provider_supports name
      ∙ ap (λ b. b && (channel_allows && (provider_supports && ungated name))) found
      ∙ regroup (includes granted_ids name) (bound name)
          (channel_allows && (provider_supports && ungated name))
    where
      regroup : (a b c : Bool) → ((a && b) && c) ≡ (a && (b && c))
      regroup true b c = refl
      regroup false b c = refl
