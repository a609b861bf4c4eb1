-- ===== src/Runtime/State/Merge.antt =====
-- `mergeRecord` and `applyStatePatch`: the bound on the keys, and who keeps a place under it.
use ai_receptionist.Base.{
  ℕ, zero, suc, ◌≤◌, ◌<◌, ◌≡◌, inl, inr, refl, sym, ap, ◌∙◌, subst, String, Bool, true, false, ◌=ˢ◌,
  List, [], ◌∷◌, Option, none, some, Dict, lookup, insert, delete, lookup-insert, lookup-delete,
  if◌then◌else◌, arith, eq_iff, eq_refl, Bool-cases, length, take, drop, ltb, All,
}
use ai_receptionist.Runtime.State.{
  ConversationState, ConversationStatePatch, keys, merge_entries, delete_keys, bounded,
  merge_record, patched, apply_state_patch, max_slots,
}

-- No key stands twice.
abbrev pub HasUniqueKeys {ℓ} : {V : Type ℓ} → Dict V → Type ℓ
HasUniqueKeys [] = Unit
HasUniqueKeys ((key, value) ∷ dict) = (lookup key dict ≡ none) × HasUniqueKeys dict

module _ {ℓ} {V : Type ℓ} where
  insert-HasUniqueKeys :
      (key : String) (value : V) (dict : Dict V)
      → HasUniqueKeys dict
      → HasUniqueKeys (insert key value dict)
  unfolding lookup insert
  insert-HasUniqueKeys key value [] h = (refl, tt)
  insert-HasUniqueKeys key value ((here, old) ∷ dict) (away, h) =
      by_key (here =ˢ key) refl (insert-HasUniqueKeys key value dict h)
    where
      by_key :
          (b : Bool)
          → (here =ˢ key) ≡ b
          → HasUniqueKeys (insert key value dict)
          → HasUniqueKeys (if b then (here, value) ∷ dict else (here, old) ∷ insert key value dict)
      by_key true e later = (away, h)
      by_key false e later = (
        ground (arith, lookup-insert key here value dict, away, eq_iff here key, eq_iff key here),
        later,
      )

  delete-HasUniqueKeys :
      (key : String) (dict : Dict V) → HasUniqueKeys dict → HasUniqueKeys (delete key dict)
  unfolding lookup delete
  delete-HasUniqueKeys key [] h = tt
  delete-HasUniqueKeys key ((here, old) ∷ dict) (away, h) =
      by_key (here =ˢ key) (delete-HasUniqueKeys key dict h)
    where
      by_key :
          (b : Bool)
          → HasUniqueKeys (delete key dict)
          → HasUniqueKeys (if b then delete key dict else (here, old) ∷ delete key dict)
      by_key true later = later
      by_key false later = (ground (arith, lookup-delete key here dict, away), later)

  delete-absent : (key : String) (dict : Dict V) → lookup key dict ≡ none → delete key dict ≡ dict
  unfolding lookup delete
  delete-absent key [] h = refl
  delete-absent key ((here, old) ∷ dict) h =
      let other : (here =ˢ key) ≡ false = ground arith in
      let rest : delete key dict ≡ dict = delete-absent key dict (ground arith) in
      ground (arith, rest, other)

pub merge_entries-HasUniqueKeys :
    (base : Dict String) (patch : Dict (Option String))
    → HasUniqueKeys base
    → HasUniqueKeys (merge_entries base patch)
unfolding merge_entries
merge_entries-HasUniqueKeys base [] h = h
merge_entries-HasUniqueKeys base ((key, none) ∷ patch) h =
    merge_entries-HasUniqueKeys (delete key base) patch (delete-HasUniqueKeys key base h)
merge_entries-HasUniqueKeys base ((key, some value) ∷ patch) h =
    merge_entries-HasUniqueKeys (insert key value base) patch
      (insert-HasUniqueKeys key value base h)

keys-away :
    (key : String) (dict : Dict String)
    → lookup key dict ≡ none
    → All (λ k. (key =ˢ k) ≡ false) (keys dict)
unfolding lookup
keys-away key [] h = tt
keys-away key ((here, old) ∷ dict) h =
    (ground (arith, eq_iff here key, eq_iff key here), keys-away key dict (ground arith))

All-drop : {A : Type 0} (P : A → Type 0) (n : ℕ) (xs : List A) → All P xs → All P (drop n xs)
All-drop P zero xs h = h
All-drop P (suc n) [] h = tt
All-drop P (suc n) (x ∷ xs) (p, h) = All-drop P n xs h

-- Deleting other keys leaves the head.
delete_keys-head :
    (key value : String) (extra : List String) (dict : Dict String)
    → All (λ k. (key =ˢ k) ≡ false) extra
    → delete_keys extra ((key, value) ∷ dict) ≡ (key, value) ∷ delete_keys extra dict
unfolding delete_keys delete
delete_keys-head key value [] dict h = refl
delete_keys-head key value (k ∷ extra) dict (other, h) =
    let here : delete k ((key, value) ∷ dict) ≡ (key, value) ∷ delete k dict = ground arith in
    ap (delete_keys extra) here ∙ delete_keys-head key value extra (delete k dict) h

delete_keys-take :
    (n : ℕ) (dict : Dict String)
    → HasUniqueKeys dict
    → delete_keys (drop n (keys dict)) dict ≡ take n dict
unfolding delete_keys delete
delete_keys-take zero [] h = refl
delete_keys-take zero ((key, value) ∷ dict) (away, h) =
    let same : (key =ˢ key) ≡ true = eq_refl key in
    let here : delete key ((key, value) ∷ dict) ≡ dict =
      ground (arith, same, delete-absent key dict away) in
    ap (delete_keys (keys dict)) here ∙ delete_keys-take zero dict h
delete_keys-take (suc n) [] h = refl
delete_keys-take (suc n) ((key, value) ∷ dict) (away, h) =
    delete_keys-head key value (drop n (keys dict)) dict
      (All-drop (λ k. (key =ˢ k) ≡ false) n (keys dict) (keys-away key dict away))
    ∙ ap (λ d. (key, value) ∷ d) (delete_keys-take n dict h)

length-keys : {V : Type 0} (dict : Dict V) → length (keys dict) ≡ length dict
length-keys [] = refl
length-keys (x ∷ dict) = omega (arith, length-keys dict)

take-all : (n : ℕ) (dict : Dict String) → length dict ≤ n → take n dict ≡ dict
take-all zero [] le = refl
take-all zero (x ∷ dict) le = absurd (omega arith)
take-all (suc n) [] le = refl
take-all (suc n) (x ∷ dict) le = ap (λ d. x ∷ d) (take-all n dict (omega arith))

-- What the limit leaves is the first `limit` entries.
pub bounded-take :
    (limit : ℕ) (dict : Dict String) → HasUniqueKeys dict → bounded limit dict ≡ take limit dict
unfolding bounded
bounded-take limit dict h = by_size (ltb limit (length (keys dict))) refl
  where
    by_size :
        (b : Bool)
        → ltb limit (length (keys dict)) ≡ b
        → (if b then delete_keys (drop limit (keys dict)) dict else dict) ≡ take limit dict
    by_size true over = delete_keys-take limit dict h
    by_size false fits = sym (take-all limit dict (ground (arith, length-keys dict, fits)))

-- The index of a key.
abbrev pub place : String → Dict String → ℕ
place k [] = 0
place k ((here, value) ∷ dict) = if here =ˢ k then 0 else suc (place k dict)

pub lookup-take :
    (k : String) (n : ℕ) (dict : Dict String)
    → place k dict < n
    → lookup k (take n dict) ≡ lookup k dict
unfolding lookup
lookup-take k zero dict lt = absurd (omega arith)
lookup-take k (suc n) [] lt = refl
lookup-take k (suc n) ((here, value) ∷ dict) lt = elim (Bool-cases (here =ˢ k)) [
  | inl met ↦ ground arith
  | inr other ↦ ground (arith, lookup-take k n dict (ground arith))
]

pub lookup-take-none :
    (k : String) (n : ℕ) (dict : Dict String) → lookup k dict ≡ none → lookup k (take n dict) ≡ none
unfolding lookup
lookup-take-none k zero dict h = refl
lookup-take-none k (suc n) [] h = refl
lookup-take-none k (suc n) ((here, value) ∷ dict) h =
    ground (arith, lookup-take-none k n dict (ground arith))

pub place-lt-length :
    (k v : String) (dict : Dict String) → lookup k dict ≡ some v → place k dict < length dict
unfolding lookup
place-lt-length k v [] h = absurd (ground arith)
place-lt-length k v ((here, value) ∷ dict) h = elim (Bool-cases (here =ˢ k)) [
  | inl met ↦ ground arith
  | inr other ↦ ground (arith, place-lt-length k v dict (ground arith))
]

pub place-insert :
    (k v key new : String) (dict : Dict String)
    → lookup k dict ≡ some v
    → place k (insert key new dict) ≡ place k dict
unfolding lookup insert
place-insert k v key new [] h = absurd (ground arith)
place-insert k v key new ((here, value) ∷ dict) h = elim (Bool-cases (here =ˢ k)) [
  | inl met ↦ ground arith
  | inr other ↦ ground (arith, place-insert k v key new dict (ground arith))
]

pub place-delete-le :
    (k key : String) (dict : Dict String)
    → (key =ˢ k) ≡ false
    → place k (delete key dict) ≤ place k dict
unfolding delete
place-delete-le k key [] h = omega arith
place-delete-le k key ((here, value) ∷ dict) h =
    ground (arith, place-delete-le k key dict h, eq_iff here key, eq_iff here k, eq_iff key k)

length-take-le : (n : ℕ) (dict : Dict String) → length (take n dict) ≤ n
length-take-le zero dict = omega arith
length-take-le (suc n) [] = omega arith
length-take-le (suc n) (x ∷ dict) = omega (arith, length-take-le n dict)

take-HasUniqueKeys : (n : ℕ) (dict : Dict String) → HasUniqueKeys dict → HasUniqueKeys (take n dict)
take-HasUniqueKeys zero dict h = tt
take-HasUniqueKeys (suc n) [] h = tt
take-HasUniqueKeys (suc n) ((key, value) ∷ dict) (away, h) =
    (lookup-take-none key n dict away, take-HasUniqueKeys n dict h)

-- At most `limit` keys, none of them twice.
abbrev pub IsBounded : ℕ → Dict String → Type 0
IsBounded limit dict = HasUniqueKeys dict × (length dict ≤ limit)

merge_record-IsBounded :
    (limit : ℕ) (base : Dict String) (patch : Option (Dict (Option String)))
    → IsBounded limit base
    → IsBounded limit (merge_record base patch limit)
unfolding merge_record
merge_record-IsBounded limit base none h = h
merge_record-IsBounded limit base (some patch) (unique, fits) =
    let next = merge_entries base patch in
    let unique2 = merge_entries-HasUniqueKeys base patch unique in
    subst (IsBounded limit) (sym (bounded-take limit next unique2))
      (take-HasUniqueKeys limit next unique2, length-take-le limit next)

-- The slots and the qualification answers of a conversation are bounded.
abbrev pub IsBoundedState : ConversationState → Type 0
IsBoundedState state = IsBounded max_slots state.slots × IsBounded max_slots state.qualification

-- Under any patch that `applyStatePatch` accepts, a conversation keeps at most 24 slots and at most 24
-- qualification answers, with no key twice.
pub apply_state_patch-IsBoundedState :
    (is_valid_patch : ConversationStatePatch → Bool) (state after : ConversationState)
    (patch : ConversationStatePatch)
    → IsBoundedState state
    → apply_state_patch is_valid_patch state patch ≡ some after
    → IsBoundedState after
unfolding apply_state_patch patched
apply_state_patch-IsBoundedState is_valid_patch state after patch (slots, answers) h =
    let applied : patched state patch ≡ after = ground arith in
    subst IsBoundedState applied (
      merge_record-IsBounded max_slots state.slots patch.slots slots,
      merge_record-IsBounded max_slots state.qualification patch.qualification answers,
    )
