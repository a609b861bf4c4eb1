-- ===== src/Negotiation/Authorization/Offers.antt =====
-- What the agent is told it may offer and may say about price.
use mathlib.Core.List.{Memᴰ}
use ai_receptionist.Base.{
  ℕ, ◌≡◌, ◌≢◌, refl, sym, ap, ◌⊎◌, inl, inr, ◌↔◌, String, List, [], ◌∷◌, Option, some, arith,
  eq_iff, find, or_else, ◌=ˢ◌, Bool-cases, Option-cases,
}
use ai_receptionist.Negotiation.Policy.{
  Concession, Quote, PriceDisclosure, no_figures, range, exact, NegotiationPolicy,
}
use ai_receptionist.Negotiation.Authorization.{
  ConcessionDecision, AuthorizedOffer, allowed, denied, NegotiationSnapshot, pick, find_concession,
  authorize_concession, add_offer, offers_among, available_concessions, Figure, add_figure, figures,
  if_disclosed, disclosable_quotes,
}

module _ (policy : NegotiationPolicy) (s : NegotiationSnapshot) (language : Option String) where
  Memᴰ-add_offer :
      (d : ConcessionDecision) (o : AuthorizedOffer) (os : List AuthorizedOffer)
      → Memᴰ o (add_offer d os)
      → (d ≡ allowed o) ⊎ Memᴰ o os
  Memᴰ-add_offer (allowed x) o os (Memᴰ.head e) = inl (ap allowed (sym e))
  Memᴰ-add_offer (allowed x) o os (Memᴰ.tail m) = inr m
  Memᴰ-add_offer (denied r i d) o os m = inr m

  offers_among_sound :
      (o : AuthorizedOffer) (cs : List Concession)
      → Memᴰ o (offers_among policy s language cs)
      → (id : String) × (authorize_concession policy s id language ≡ allowed o)
  unfolding offers_among
  offers_among_sound o [] m = elim m [ ]
  offers_among_sound o (c ∷ cs) m =
      elim (Memᴰ-add_offer (authorize_concession policy s c.id language) o _ m) [
        | inl e ↦ (c.id, e)
        | inr m' ↦ offers_among_sound o cs m'
      ]

  add_offer_later :
      (d : ConcessionDecision) (o : AuthorizedOffer) (os : List AuthorizedOffer)
      → Memᴰ o os
      → Memᴰ o (add_offer d os)
  add_offer_later (allowed x) o os m = Memᴰ.tail m
  add_offer_later (denied r i d) o os m = m

  offers_among_complete :
      (o : AuthorizedOffer) (id : String) (c : Concession) (cs : List Concession)
      → find (λ d. d.id =ˢ id) cs ≡ some c
      → authorize_concession policy s id language ≡ allowed o
      → Memᴰ o (offers_among policy s language cs)
  unfolding offers_among
  offers_among_complete o id c [] e h = cc
  offers_among_complete o id c (d ∷ cs) e h = elim (Bool-cases (d.id =ˢ id)) [
    | inl here ↦ rw ((eq_iff d.id id).0 here, h) (Memᴰ.head refl)
    | inr there ↦
        add_offer_later (authorize_concession policy s d.id language) o _
          (offers_among_complete o id c cs (ground arith) h)
  ]

  find_of_allowed :
      (id : String) (o : AuthorizedOffer)
      → authorize_concession policy s id language ≡ allowed o
      → (c : Concession) × (find_concession policy id ≡ some c)
  unfolding authorize_concession
  find_of_allowed id o h = elim (Option-cases (find_concession policy id)) [
    | inl gone ↦ absurd (ground arith)
    | inr found ↦ found
  ]

  -- The prompt lists an offer as available exactly if the executor would grant it now, by some id.
  pub available_concessions_iff :
      (o : AuthorizedOffer)
      → Memᴰ o (available_concessions policy s language)
        ↔ ((id : String) × (authorize_concession policy s id language ≡ allowed o))
  unfolding available_concessions find_concession
  available_concessions_iff o = (
    offers_among_sound o policy.concessions,
    (λ (id, h).
        let (c, found) = find_of_allowed id o h in
        offers_among_complete o id c policy.concessions found h),
  )

-- A figure that stands in the policy with a verified amount.
abbrev pub IsQuoted : NegotiationPolicy → Option String → List Quote → Figure → Type 0
IsQuoted policy language qs f =
    (q : Quote) × Memᴰ q qs
    × (q.amount ≡ some f.amount)
    × (f.unit ≡ q.unit)
    × (f.label ≡ pick q.label (or_else language policy.language) policy.language)

figures-IsQuoted :
    (policy : NegotiationPolicy) (language : Option String) (qs : List Quote) (f : Figure)
    → Memᴰ f (figures policy language qs)
    → IsQuoted policy language qs f
unfolding figures
figures-IsQuoted policy language [] f m = elim m [ ]
figures-IsQuoted policy language (q ∷ qs) f m = elim (Option-cases q.amount) [
  | inl unset ↦ later (figures-IsQuoted policy language qs f) (rw (unset, add_figure) at m)
  | inr (a, e) ↦ first a e (figures-IsQuoted policy language qs f) (rw (e, add_figure) at m)
]
  where
    later :
        (Memᴰ f (figures policy language qs) → IsQuoted policy language qs f)
        → Memᴰ f (figures policy language qs)
        → IsQuoted policy language (q ∷ qs) f
    later ih n = let (r, at_, e, u, l) = ih n in (r, Memᴰ.tail at_, e, u, l)

    first :
        (a : ℕ)
        → q.amount ≡ some a
        → (Memᴰ f (figures policy language qs) → IsQuoted policy language qs f)
        → Memᴰ f (
            record {
              label = pick q.label (or_else language policy.language) policy.language;
              amount = a;
              unit = q.unit;
            }
            ∷ figures policy language qs)
        → IsQuoted policy language (q ∷ qs) f
    first a e ih (Memᴰ.head same) = (q, Memᴰ.head refl, ground arith, ground arith, ground arith)
    first a e ih (Memᴰ.tail n) = later ih n

disclosed :
    (d : PriceDisclosure) (l : List Figure) (f : Figure)
    → Memᴰ f (if_disclosed d l)
    → (d ≢ no_figures) × Memᴰ f l
disclosed no_figures l f m = elim m [ ]
disclosed range l f m = ((λ e. ground arith), m)
disclosed exact l f m = ((λ e. ground arith), m)

-- The agent states no figure where the policy discloses none; and any figure that it may state is
-- the verified amount of a quote of the policy, in its unit.
pub disclosable_quotes-IsQuoted :
    (policy : NegotiationPolicy) (language : Option String) (f : Figure)
    → Memᴰ f (disclosable_quotes policy language)
    → (policy.price_disclosure ≢ no_figures) × IsQuoted policy language policy.quotes f
unfolding disclosable_quotes
disclosable_quotes-IsQuoted policy language f m =
    let (shown, there) = disclosed policy.price_disclosure _ f m in
    (shown, figures-IsQuoted policy language policy.quotes f there)
