-- ===== src/Examples/Calls.antt =====
-- Properties of the endpointer and of the store of calls at concrete input.
use ai_receptionist.Base.{ℕ, refl, String, false, List, [], ◌∷◌, none, lookup, insert}
use ai_receptionist.Voice.CallState.{
  inbound, in_conversation, completing, completed, state_eq, state_in, transitions,
  can_transition_call,
}
use ai_receptionist.Voice.Endpointer.{EndpointerConfig}
use ai_receptionist.Voice.CallStore.{NewCall, CallStore, scoped, created_call, transition_call}
use ai_receptionist.Voice.CallStore.Steps.{Steps, moved, stopped, followed}
use ai_receptionist.Voice.CallStore.Lifetime.{Continues, call_moves_legally}

abbrev default_config : EndpointerConfig
default_config = record {
  sample_rate = 8000;
  speech_threshold = 20;
  min_speech_ms = 120;
  end_hangover_ms = 700;
}

-- A word, and silence.
abbrev a_word : List (ℕ × ℕ)
a_word = (20, 0) ∷ (100, 50) ∷ (100, 60) ∷ (400, 3) ∷ (400, 2) ∷ []

abbrev incoming : NewCall
incoming = record {
  business_id = "b";
  agent_id = "a";
  agent_version_id = "v";
  phone_number_id = none;
  direction = inbound;
  provider = "mock";
  provider_call_id = "p1";
  from_number = "+911";
  to_number = "+912";
  state = in_conversation;
  language = none;
}

abbrev Store : Type 0
Store = CallStore String String String String

abbrev empty_store : Store
empty_store = record {
  calls = [];
  events = [];
  transcripts = [];
  finalizations = [];
  outcomes = [];
  conversations = [];
  suppressions = [];
  fail_events = false;
}

abbrev one_call : Store
one_call = record empty_store { calls = ("c", created_call "c" "k" incoming) ∷ [] }

abbrev batch : List (ℕ × String)
batch = (1, "started") ∷ (2, "heard") ∷ []

abbrev completing_call : Store
completing_call = record empty_store {
  calls = ("c", record (created_call "c" "k" incoming) { state = completing }) ∷ [];
}

abbrev completed_call : Store
completed_call = record empty_store {
  calls = ("c", record (created_call "c" "k" incoming) { state = completed }) ∷ [];
}

hang_up : Steps String String String String one_call completed_call
unfolding transition_call scoped lookup insert state_eq can_transition_call state_in transitions
hang_up =
    followed (moved "c" "b" in_conversation completing one_call completing_call refl)
      (followed (moved "c" "b" completing completed completing_call completed_call refl) stopped)

call_moves_legally_example : Continues "c" (created_call "c" "k" incoming) completed_call.calls
unfolding lookup
call_moves_legally_example =
    call_moves_legally String String String String "c" (created_call "c" "k" incoming) one_call
      completed_call hang_up refl
