-- ===== src/Runtime/State/Precedence.antt =====
-- `mergeRecord`: a key that is there keeps its place, whatever is added.
use ai_receptionist.Base.{
  ℕ, ◌≤◌, ◌<◌, ◌≡◌, inl, inr, refl, sym, ap, ◌∙◌, subst, String, Bool, true, false, not, ◌=ˢ◌, ◌&&◌,
  ◌||◌, [], ◌∷◌, Option, none, some, is_some, Dict, lookup, insert, delete, lookup-insert,
  lookup-delete, if◌then◌else◌, arith, eq_iff, Bool-cases, length, take, or_else,
}
use ai_receptionist.Runtime.State.{merge_entries, merge_record}
use ai_receptionist.Runtime.State.Merge.{
  HasUniqueKeys, merge_entries-HasUniqueKeys, bounded-take, place, lookup-take, lookup-take-none,
  place-lt-length, place-insert, place-delete-le,
}

lookup-merge_entries :
    (k : String) (base : Dict String) (patch : Dict (Option String))
    → HasUniqueKeys patch
    → lookup k (merge_entries base patch) ≡ or_else (lookup k patch) (lookup k base)
unfolding merge_entries lookup
lookup-merge_entries k base [] h = refl
lookup-merge_entries k base ((key, none) ∷ patch) (away, h) =
    let rest = lookup-merge_entries k (delete key base) patch h in
    grind (arith, rest, lookup-delete key k base, away, eq_iff key k)
lookup-merge_entries k base ((key, some value) ∷ patch) (away, h) =
    let rest = lookup-merge_entries k (insert key value base) patch h in
    grind (arith, rest, lookup-insert key k value base, away, eq_iff key k)

-- The patch does not delete the key.
abbrev spares : String → Dict (Option String) → Bool
spares k [] = true
spares k ((key, value) ∷ patch) = (not (key =ˢ k) || is_some value) && spares k patch

absent-spares :
    (k : String) (patch : Dict (Option String)) → lookup k patch ≡ none → spares k patch ≡ true
unfolding lookup
absent-spares k [] h = refl
absent-spares k ((key, value) ∷ patch) h = ground (arith, absent-spares k patch (ground arith))

known-spares :
    (k v : String) (patch : Dict (Option String))
    → HasUniqueKeys patch
    → lookup k patch ≡ some (some v)
    → spares k patch ≡ true
unfolding lookup
known-spares k v [] unique h = absurd (ground arith)
known-spares k v ((key, value) ∷ patch) (away, unique) h = elim (Bool-cases (key =ˢ k)) [
  | inl met ↦
      let e : key ≡ k = ground (arith, eq_iff key k) in
      let gone : lookup k patch ≡ none = subst (λ x. lookup x patch ≡ none) e away in
      ground (arith, absent-spares k patch gone)
  | inr other ↦ ground (arith, known-spares k v patch unique (ground arith))
]

-- A key that is there and is not deleted moves forward only.
place-merge_entries :
    (k v : String) (base : Dict String) (patch : Dict (Option String))
    → lookup k base ≡ some v
    → spares k patch ≡ true
    → place k (merge_entries base patch) ≤ place k base
unfolding merge_entries
place-merge_entries k v base [] known h = omega arith
place-merge_entries k v base ((key, none) ∷ patch) known h =
    let other : (key =ˢ k) ≡ false = ground arith in
    let stays : lookup k (delete key base) ≡ some v = ground (arith, lookup-delete key k base) in
    let rest = place-merge_entries k v (delete key base) patch stays (ground arith) in
    omega (arith, rest, place-delete-le k key base other)
place-merge_entries k v base ((key, some value) ∷ patch) known h =
    let w : String = if key =ˢ k then value else v in
    let stays : lookup k (insert key value base) ≡ some w =
      ground (arith, lookup-insert key k value base) in
    let rest = place-merge_entries k w (insert key value base) patch stays (ground arith) in
    omega (arith, rest, place-insert k v key value base known)

-- Where a record within its limit is merged with a patch, a key that it already has keeps its value, or
-- takes the one the patch gives, or goes where the patch has null: no key that the patch adds can push
-- it out.
pub merge_record_keeps_known :
    (limit : ℕ) (k old : String) (base : Dict String) (patch : Dict (Option String))
    → HasUniqueKeys base
    → HasUniqueKeys patch
    → length base ≤ limit
    → lookup k base ≡ some old
    → lookup k (merge_record base (some patch) limit) ≡ or_else (lookup k patch) (some old)
unfolding merge_record
merge_record_keeps_known limit k old base patch unique unique2 fits known =
    ap (lookup k) (bounded-take limit next (merge_entries-HasUniqueKeys base patch unique))
    ∙ by_entry (lookup k patch) refl
  where
    next : Dict String
    next = merge_entries base patch

    value : lookup k next ≡ or_else (lookup k patch) (some old)
    value = lookup-merge_entries k base patch unique2 ∙ ap (λ o. or_else (lookup k patch) o) known

    within : spares k patch ≡ true → place k next < limit
    within h =
        omega
          (arith, place-merge_entries k old base patch known h, place-lt-length k old base known)

    by_entry :
        (o : Option (Option String))
        → lookup k patch ≡ o
        → lookup k (take limit next) ≡ or_else (lookup k patch) (some old)
    by_entry none e = lookup-take k limit next (within (absent-spares k patch e)) ∙ value
    by_entry (some none) e =
        lookup-take-none k limit next (value ∙ ap (λ o. or_else o (some old)) e)
        ∙ sym (ap (λ o. or_else o (some old)) e)
    by_entry (some (some v)) e =
        lookup-take k limit next (within (known-spares k v patch unique2 e)) ∙ value
