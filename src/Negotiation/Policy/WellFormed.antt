-- ===== src/Negotiation/Policy/WellFormed.antt =====
-- What a policy that was loaded guarantees.
use ai_receptionist.Base.{
  ℕ, ◌≤◌, ◌≡◌, ◌≢◌, refl, inl, inr, ◌↔◌, String, true, false, not, ◌&&◌, List, [], ◌∷◌, Option,
  some, arith, eq_iff, all, any, is_some, includes, All, Dict, lookup, append-eq-nil, Bool-cases,
  Option-cases,
}
use ai_receptionist.Negotiation.Policy.{
  ConcessionType, discount_percent, Concession, Quote, FinancingOption, no_figures,
  nothing_to_disclose, Floors, NegotiationPolicy, PolicyError, ok, missing, exceeds,
  is_discount_percent, error_if, concession_errors, concessions_errors, quotes_errors,
  financing_errors, discloses, policy_errors, SafeParse, success, parse_negotiation_policy,
}

-- A text in the policy's language that is not empty.
abbrev pub HasText : Dict String → String → Type 0
HasText text lang = (s : String) × (lookup lang text ≡ some s) × (s ≢ "")

pub record IsSound (lang : String) (floors : Floors) (c : Concession) : Type 0 where
  pub script : HasText c.script lang
  pub label : HasText c.label lang
  pub percent : (v : ℕ) → c.kind ≡ discount_percent → c.value ≡ some v → v ≤ 100
  pub floor :
      (v m : ℕ)
      → c.kind ≡ discount_percent
      → c.value ≡ some v
      → floors.max_discount_percent ≡ some m
      → v ≤ m

-- Each id differs from those before it.
abbrev pub DistinctIds : List String → List Concession → Type 0
DistinctIds ids [] = Unit
DistinctIds ids (c ∷ cs) = All (λ i. i ≢ c.id) ids × DistinctIds (c.id ∷ ids) cs

pub record IsWellFormed (p : NegotiationPolicy) : Type 0 where
  pub distinct : DistinctIds [] p.concessions
  pub sound : All (IsSound p.language p.floors) p.concessions
  pub quotes : All (λ q. HasText q.label p.language) p.quotes
  pub financing : All (λ o. HasText o.description p.language) p.financing
  pub disclosure : p.price_disclosure ≢ no_figures → any (λ q. is_some q.amount) p.quotes ≡ true

missing-HasText :
    (text : Dict String) (lang : String) → missing text lang ≡ false → HasText text lang
unfolding missing
missing-HasText text lang h = elim (Option-cases (lookup lang text)) [
  | inl gone ↦ absurd (ground arith)
  | inr (s, e) ↦ (s, e, λ empty. ground (arith, eq_iff s ""))
]

HasText-missing :
    (text : Dict String) (lang : String) → HasText text lang → missing text lang ≡ false
unfolding missing
HasText-missing text lang (s, e, ne) = ground (arith, eq_iff s "")

-- `concession_errors` finds nothing exactly in a sound concession with a new id.
abbrev Passes : String → Floors → List String → Concession → Type 0
Passes lang floors ids c =
    (includes ids c.id ≡ false)
    × (missing c.script lang ≡ false)
    × (missing c.label lang ≡ false)
    × ((is_discount_percent c.kind && exceeds c.value (some 100)) ≡ false)
    × ((is_discount_percent c.kind && exceeds c.value floors.max_discount_percent) ≡ false)

concession_errors_iff :
    (lang : String) (floors : Floors) (ids : List String) (c : Concession)
    → (concession_errors lang floors ids c ≡ []) ↔ Passes lang floors ids c
unfolding concession_errors
concession_errors_iff lang floors ids c = ground arith

abbrev pub InRange : ConcessionType → Option ℕ → Option ℕ → Type 0
InRange kind value bound =
    (v m : ℕ) → kind ≡ discount_percent → value ≡ some v → bound ≡ some m → v ≤ m

pub InRange-test :
    (kind : ConcessionType) (value bound : Option ℕ)
    → InRange kind value bound
    → (is_discount_percent kind && exceeds value bound) ≡ false
unfolding exceeds
InRange-test discount_percent (some v) (some m) h = ground (arith, h v m refl refl refl)
InRange-test _ _ _ h = ground arith

pub test-InRange :
    (kind : ConcessionType) (value bound : Option ℕ)
    → (is_discount_percent kind && exceeds value bound) ≡ false
    → InRange kind value bound
unfolding exceeds
test-InRange kind value bound h v m k e f = ground arith

includes_iff : (ids : List String) (x : String) → (includes ids x ≡ false) ↔ All (λ i. i ≢ x) ids
includes_iff [] x = ((λ h. tt), (λ h. refl))
includes_iff (i ∷ ids) x = ground (arith, includes_iff ids x, eq_iff i x)

Passes-IsSound :
    (lang : String) (floors : Floors) (ids : List String) (c : Concession)
    → Passes lang floors ids c
    → All (λ i. i ≢ c.id) ids × IsSound lang floors c
Passes-IsSound lang floors ids c (new, script, label, percent, floor) = (
  (includes_iff ids c.id).0 new,
  record {
    script = missing-HasText c.script lang script;
    label = missing-HasText c.label lang label;
    percent = λ v k e. test-InRange c.kind c.value (some 100) percent v 100 k e refl;
    floor = test-InRange c.kind c.value floors.max_discount_percent floor;
  },
)

IsSound-Passes :
    (lang : String) (floors : Floors) (ids : List String) (c : Concession)
    → All (λ i. i ≢ c.id) ids
    → IsSound lang floors c
    → Passes lang floors ids c
IsSound-Passes lang floors ids c new s = (
  (includes_iff ids c.id).1 new,
  HasText-missing c.script lang s.script,
  HasText-missing c.label lang s.label,
  InRange-test c.kind c.value (some 100) (λ v m k e f. ground (arith, s.percent v k e)),
  InRange-test c.kind c.value floors.max_discount_percent s.floor,
)

concessions_errors_iff :
    (lang : String) (floors : Floors) (ids : List String) (cs : List Concession)
    → (concessions_errors lang floors ids cs ≡ [])
      ↔ (DistinctIds ids cs × All (IsSound lang floors) cs)
unfolding concessions_errors
concessions_errors_iff lang floors ids [] = ((λ h. (tt, tt)), (λ h. refl))
concessions_errors_iff lang floors ids (c ∷ cs) =
    let (to, from) = concessions_errors_iff lang floors (c.id ∷ ids) cs in
    let (here, back) = concession_errors_iff lang floors ids c in
    (
      (λ h.
          let (e, es) = append-eq-nil _ _ h in
          let (new, sound) = Passes-IsSound lang floors ids c (here e) in
          let (distinct, sounds) = to es in ((new, distinct), (sound, sounds))),
      (λ ((new, distinct), (sound, sounds)).
          rw (back (IsSound-Passes lang floors ids c new sound)) (from (distinct, sounds))),
    )

quotes_errors_iff :
    (lang : String) (qs : List Quote)
    → (quotes_errors lang qs ≡ []) ↔ All (λ q. HasText q.label lang) qs
unfolding quotes_errors
quotes_errors_iff lang [] = ((λ h. tt), (λ h. refl))
quotes_errors_iff lang (q ∷ qs) =
    let (to, from) = quotes_errors_iff lang qs in
    (
      (λ h. (missing-HasText q.label lang (ground arith), to (ground arith))),
      (λ (e, es). rw (HasText-missing q.label lang e) (from es)),
    )

financing_errors_iff :
    (lang : String) (os : List FinancingOption)
    → (financing_errors lang os ≡ []) ↔ All (λ o. HasText o.description lang) os
unfolding financing_errors
financing_errors_iff lang [] = ((λ h. tt), (λ h. refl))
financing_errors_iff lang (o ∷ os) =
    let (to, from) = financing_errors_iff lang os in
    (
      (λ h. (missing-HasText o.description lang (ground arith), to (ground arith))),
      (λ (e, es). rw (HasText-missing o.description lang e) (from es)),
    )

all-not-any :
    (qs : List Quote) → all (λ q. not (is_some q.amount)) qs ≡ not (any (λ q. is_some q.amount) qs)
all-not-any [] = refl
all-not-any (q ∷ qs) = ground (arith, all-not-any qs)

abbrev disclosure_error : NegotiationPolicy → List PolicyError
disclosure_error p =
    error_if (discloses p.price_disclosure && all (λ q. not (is_some q.amount)) p.quotes)
      nothing_to_disclose

discloses_some :
    (p : NegotiationPolicy)
    → p.price_disclosure ≢ no_figures
    → disclosure_error p ≡ []
    → any (λ q. is_some q.amount) p.quotes ≡ true
discloses_some p ne h = ground (arith, all-not-any p.quotes)

nothing_hidden :
    (p : NegotiationPolicy)
    → (p.price_disclosure ≢ no_figures → any (λ q. is_some q.amount) p.quotes ≡ true)
    → disclosure_error p ≡ []
nothing_hidden p h = elim (Bool-cases (discloses p.price_disclosure)) [
  | inl shown ↦ ground (arith, all-not-any p.quotes, h (λ e. ground arith))
  | inr hidden ↦ rw hidden
]

policy_errors_iff : (p : NegotiationPolicy) → (policy_errors p ≡ []) ↔ IsWellFormed p
unfolding policy_errors
policy_errors_iff p = (
  (λ h.
      let (cs, rest) = append-eq-nil _ _ h in
      let (qs, rest') = append-eq-nil _ _ rest in
      let (os, shown) = append-eq-nil _ _ rest' in
      let (distinct, sound) = (concessions_errors_iff p.language p.floors [] p.concessions).0 cs in
      record {
        distinct = distinct;
        sound = sound;
        quotes = (quotes_errors_iff p.language p.quotes).0 qs;
        financing = (financing_errors_iff p.language p.financing).0 os;
        disclosure = λ ne. discloses_some p ne shown;
      }),
  (λ w.
      rw
        (
          (concessions_errors_iff p.language p.floors [] p.concessions).1 (w.distinct, w.sound),
          (quotes_errors_iff p.language p.quotes).1 w.quotes,
          (financing_errors_iff p.language p.financing).1 w.financing,
        )
        (nothing_hidden p w.disclosure)),
)

accepted :
    {Raw : Type 0} (safe_parse : Raw → SafeParse) (raw : Raw) (p : NegotiationPolicy)
    → parse_negotiation_policy safe_parse raw ≡ ok p
    → (safe_parse raw ≡ success p) × (policy_errors p ≡ [])
unfolding parse_negotiation_policy
accepted safe_parse raw p h = ground arith

-- Loading accepts a policy exactly when the schema parses it and the result is well formed: ids
-- distinct, every concession with script and label in the policy's language, every percentage
-- discount at most 100 and within the floor, every quote and financing option worded in that
-- language, and a verified amount wherever prices may be disclosed.
pub parse_negotiation_policy_iff :
    {Raw : Type 0} (safe_parse : Raw → SafeParse) (raw : Raw) (p : NegotiationPolicy)
    → (parse_negotiation_policy safe_parse raw ≡ ok p)
      ↔ ((safe_parse raw ≡ success p) × IsWellFormed p)
unfolding parse_negotiation_policy
parse_negotiation_policy_iff safe_parse raw p = (
  (λ h. let (e, clean) = accepted safe_parse raw p h in (e, (policy_errors_iff p).0 clean)),
  (λ (e, w). ground (arith, (policy_errors_iff p).1 w)),
)
