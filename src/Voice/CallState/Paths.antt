-- ===== src/Voice/CallState/Paths.antt =====
-- The paths that `pathToCallState` finds are legal and shortest, and it finds one where any exists.
use ai_receptionist.Base.{
  ◌+◌, ◌≤◌, ◌≡◌, refl, ◌↔◌, Bool, true, false, not, ◌&&◌, ◌||◌, List, [], ◌∷◌, Option, none, some,
  arith, length, all, leb, Option-cases, holds_sound, inl, inr,
}
use ai_receptionist.Voice.CallState.{
  CallState, created, queued, dialing, ringing, connected, in_conversation, interrupted, completing,
  completed, transferred, no_answer, busy, failed, cancelled, is_terminal_call_state,
  CallState-discrete, can_transition_call, path_to_call_state, state_eq, initial_call_state,
  CallDirection,
}

-- The states that a call passes through after the first one.
pub data Route : CallState → List CallState → CallState → Type 0 where
  arrived : {s : CallState} → Route s [] s
  hop :
      {s t u : CallState} {l : List CallState}
      → can_transition_call s t ≡ true
      → Route t l u
      → Route s (t ∷ l) u

-- `Route` as a test
is_route : CallState → List CallState → CallState → Bool
unfolding state_eq can_transition_call
is_route s [] u = state_eq s u
is_route s (t ∷ l) u = can_transition_call s t && is_route t l u

abbrev all_states : List CallState
all_states =
    created ∷ queued ∷ dialing ∷ ringing ∷ connected ∷ in_conversation ∷ interrupted ∷ completing
    ∷ completed ∷ transferred ∷ no_answer ∷ busy ∷ failed ∷ cancelled ∷ []

all_states-all : (p : CallState → Bool) → all p all_states ≡ true → (s : CallState) → p s ≡ true
all_states-all p h created = ground arith
all_states-all p h queued = ground arith
all_states-all p h dialing = ground arith
all_states-all p h ringing = ground arith
all_states-all p h connected = ground arith
all_states-all p h in_conversation = ground arith
all_states-all p h interrupted = ground arith
all_states-all p h completing = ground arith
all_states-all p h completed = ground arith
all_states-all p h transferred = ground arith
all_states-all p h no_answer = ground arith
all_states-all p h busy = ground arith
all_states-all p h failed = ground arith
all_states-all p h cancelled = ground arith

found_is_route : CallState → CallState → Bool
unfolding is_route
found_is_route s u = elim (path_to_call_state s u) [ none ↦ true | some l ↦ is_route s l u ]

routes_table : all (λ s. all (λ u. found_is_route s u) all_states) all_states ≡ true
unfolding found_is_route path_to_call_state
routes_table = refl

state_eq_sound : (s u : CallState) → state_eq s u ≡ true → s ≡ u
unfolding state_eq
state_eq_sound s u h = holds_sound (CallState-discrete s u) h

Route-of_table :
    (s : CallState) (l : List CallState) (u : CallState) → is_route s l u ≡ true → Route s l u
unfolding is_route
Route-of_table s [] u h = rw (state_eq_sound s u h) arrived
Route-of_table s (t ∷ l) u h = hop (ground arith) (Route-of_table t l u (ground arith))

found_route :
    (s u : CallState) (l : List CallState)
    → path_to_call_state s u ≡ some l
    → found_is_route s u ≡ true
    → is_route s l u ≡ true
unfolding found_is_route
found_route s u l h k = ground arith

-- Whenever a path is found, it is a sequence of legal transitions from the one state to the other.
pub path_to_call_state-Route :
    (s u : CallState) (l : List CallState) → path_to_call_state s u ≡ some l → Route s l u
path_to_call_state-Route s u l h =
    let row = all_states-all (λ v. all (λ w. found_is_route v w) all_states) routes_table s in
    Route-of_table s l u (found_route s u l h (all_states-all (λ w. found_is_route s w) row u))

-- The path of `b` is at most one longer than the path of `a`, and is there where that is.
not_beyond : Option (List CallState) → Option (List CallState) → Bool
not_beyond none b = true
not_beyond (some l) none = false
not_beyond (some l) (some m) = leb (length m) (length l + 1)

-- One transition more costs one more at most.
closer : CallState → CallState → CallState → Bool
unfolding not_beyond
closer u s t =
    not (can_transition_call s t) || not_beyond (path_to_call_state t u) (path_to_call_state s u)

closer_table : all (λ u. all (λ s. all (closer u s) all_states) all_states) all_states ≡ true
unfolding closer path_to_call_state can_transition_call
closer_table = refl

abbrev NoLonger : Option (List CallState) → List CallState → Type 0
NoLonger o l = (m : List CallState) × (o ≡ some m) × (length m ≤ length l)

closer_all : (s t u : CallState) → closer u s t ≡ true
closer_all s t u =
    let rows =
      all_states-all (λ w. all (λ v. all (closer w v) all_states) all_states) closer_table u in
    all_states-all (closer u s) (all_states-all (λ v. all (closer u v) all_states) rows s) t

no_gap :
    (s t u : CallState) (m : List CallState)
    → can_transition_call s t ≡ true
    → path_to_call_state t u ≡ some m
    → path_to_call_state s u ≡ none
    → closer u s t ≡ true
    → ⊥
unfolding closer
no_gap s t u m h p q c = ground arith

closer_step :
    (s t u : CallState) (l : List CallState)
    → can_transition_call s t ≡ true
    → NoLonger (path_to_call_state t u) l
    → NoLonger (path_to_call_state s u) (t ∷ l)
unfolding closer
closer_step s t u l h (m, found, le) = elim (Option-cases (path_to_call_state s u)) [
  | inl missing ↦ absurd (no_gap s t u m h found missing (closer_all s t u))
  | inr (n, this) ↦ (n, this, ground (arith, closer_all s t u))
]

path_to_self : (s : CallState) → path_to_call_state s s ≡ some []
unfolding path_to_call_state state_eq
path_to_self s = ground arith

-- Where a call can get from one state to another by legal transitions at all, the search finds a
-- path (its fuel is enough), and no sequence of legal transitions is shorter.
pub path_to_call_state_complete :
    {s u : CallState} {l : List CallState}
    → Route s l u
    → (m : List CallState) × (path_to_call_state s u ≡ some m) × (length m ≤ length l)
path_to_call_state_complete (arrived {s}) = ([], path_to_self s, omega arith)
path_to_call_state_complete (hop {s} {t} {u} {l} h r) =
    closer_step s t u l h (path_to_call_state_complete r)

stuck_when_terminal :
    (s t : CallState) → is_terminal_call_state s ≡ true → can_transition_call s t ≡ false
unfolding is_terminal_call_state can_transition_call
stuck_when_terminal s t h = ground arith

ending : (s : CallState) → is_terminal_call_state s ≡ not (can_transition_call s failed)
unfolding is_terminal_call_state can_transition_call
ending s = ground arith

starts : (d : CallDirection) → is_terminal_call_state (initial_call_state d) ≡ false
unfolding is_terminal_call_state initial_call_state
starts d = ground arith

terminal_iff :
    (s : CallState)
    → (is_terminal_call_state s ≡ true) ↔ ((t : CallState) → can_transition_call s t ≡ false)
terminal_iff s = ((λ h t. stuck_when_terminal s t h), (λ h. ground (arith, ending s, h failed)))

-- A terminal state accepts nothing, any other state may still fail, and no call starts out ended.
pub terminal_accepts_nothing :
    (s : CallState)
    → ((is_terminal_call_state s ≡ true) ↔ ((t : CallState) → can_transition_call s t ≡ false))
      × (is_terminal_call_state s ≡ not (can_transition_call s failed))
      × ((d : CallDirection) → is_terminal_call_state (initial_call_state d) ≡ false)
terminal_accepts_nothing s = (terminal_iff s, ending s, starts)
