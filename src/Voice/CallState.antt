-- ===== src/Voice/CallState.antt =====
-- packages/voice/call-state.ts: the technical state of a telephone call, and the shortest legal
-- path between two states. The search is a loop on fuel: each state is queued once at most, so
-- fuel for the fourteen states is enough (`path_to_call_state_complete` of Paths shows it).
pub mod Paths
use ai_receptionist.Base.{
  ℕ, zero, suc, Bool, true, false, List, [], ◌∷◌, ◌++◌, Option, none, some, any, holds,
  if◌then◌else◌,
}

pub data CallState : Type 0 where
  created queued dialing ringing connected in_conversation interrupted completing completed
        transferred no_answer busy failed cancelled :
      CallState

pub data CallDirection : Type 0 where
  inbound outbound : CallDirection

unfoldable pub CallState-discrete : Discrete CallState
CallState-discrete = hlevel

unfoldable pub state_eq : CallState → CallState → Bool
unfolding CallState-discrete
state_eq a b = holds (CallState-discrete a b)

unfoldable pub state_in : CallState → List CallState → Bool
unfolding state_eq
state_in s l = any (λ t. state_eq t s) l

-- `TRANSITIONS`
unfoldable pub transitions : CallState → List CallState
transitions created = queued ∷ dialing ∷ cancelled ∷ failed ∷ []
transitions queued = dialing ∷ cancelled ∷ failed ∷ []
transitions dialing = ringing ∷ connected ∷ no_answer ∷ busy ∷ failed ∷ cancelled ∷ []
transitions ringing = connected ∷ no_answer ∷ busy ∷ failed ∷ cancelled ∷ []
transitions connected = in_conversation ∷ completing ∷ transferred ∷ failed ∷ []
transitions in_conversation = interrupted ∷ completing ∷ transferred ∷ failed ∷ []
transitions interrupted = in_conversation ∷ completing ∷ failed ∷ []
transitions completing = completed ∷ failed ∷ []
transitions completed = []
transitions transferred = []
transitions no_answer = []
transitions busy = []
transitions failed = []
transitions cancelled = []

abbrev pub terminal_call_states : List CallState
terminal_call_states = completed ∷ transferred ∷ no_answer ∷ busy ∷ failed ∷ cancelled ∷ []

unfoldable pub initial_call_state : CallDirection → CallState
initial_call_state inbound = ringing
initial_call_state outbound = created

unfoldable pub is_terminal_call_state : CallState → Bool
unfolding state_in
is_terminal_call_state s = state_in s terminal_call_states

unfoldable pub can_transition_call : CallState → CallState → Bool
unfolding state_in transitions
can_transition_call from to = state_in to (transitions from)

-- An entry of the queue: a state, and the path by which it was found.
pub record Found : Type 0 where
  pub state : CallState
  pub path : List CallState

-- What the inner loop leaves: the answer, or the queue and the seen states.
pub data Scan : Type 0 where
  reached : List CallState → Scan
  going : List Found → List CallState → Scan

-- The inner `for (const next of TRANSITIONS[state])`.
unfoldable pub scan :
    CallState → List CallState → List CallState → List Found → List CallState → Scan
unfolding state_eq state_in
scan to path [] queue seen = going queue seen
scan to path (next ∷ nexts) queue seen =
    let later =
      scan to path nexts (queue ++ record { state = next; path = path ++ next ∷ [] } ∷ [])
        (next ∷ seen) in
    let skipped = scan to path nexts queue seen in
    if state_in next seen
    then skipped
    else if state_eq next to
    then reached (path ++ next ∷ [])
    else later

-- The outer `while (queue.length > 0)`.
unfoldable pub search_path : ℕ → CallState → List Found → List CallState → Option (List CallState)
unfolding scan transitions
search_path zero to queue seen = none
search_path (suc fuel) to [] seen = none
search_path (suc fuel) to (f ∷ queue) seen =
    elim (scan to f.path (transitions f.state) queue seen) [
      | reached path ↦ some path
      | going queue' seen' ↦ search_path fuel to queue' seen'
    ]

abbrev pub path_fuel : ℕ
path_fuel = 15

unfoldable pub path_to_call_state : CallState → CallState → Option (List CallState)
unfolding search_path state_eq
path_to_call_state from to =
    let searched = search_path path_fuel to (record { state = from; path = [] } ∷ []) (from ∷ []) in
    if state_eq from to then some [] else searched
