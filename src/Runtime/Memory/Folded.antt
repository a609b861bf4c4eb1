-- ===== src/Runtime/Memory/Folded.antt =====
-- Every message that leaves the recent window is folded into the summary once, in order.
use ai_receptionist.Base.{
  ℕ, zero, suc, ◌+◌, ◌-◌, ◌≤◌, ◌≡◌, refl, ap, ◌∙◌, max, String, Bool, true, false, List, [], ◌∷◌,
  ◌++◌, append-nil, some, length, take, drop, ltb, if◌then◌else◌, arith,
}
use ai_receptionist.Runtime.State.{
  ConversationState, ConversationStatePatch, Summary, apply_state_patch, patched,
}
use ai_receptionist.Runtime.Memory.Recap.{IsRecap, fold_summary-IsRecap}
use ai_receptionist.Runtime.Memory.{
  ChatMessage, EscalationDecision, MemoryUpdate, folds, fold_summary, next_summary, memory_patch,
  update_after, update_memory,
}

module _ {ℓ} {A : Type ℓ} where
  drop-nil : (n : ℕ) (xs : List A) → xs ≡ [] → drop n xs ≡ []
  drop-nil zero xs e = e
  drop-nil (suc n) [] e = refl
  drop-nil (suc n) (x ∷ xs) e = cc

  drop-drop : (m n p : ℕ) (xs : List A) → p ≡ n + m → drop m (drop n xs) ≡ drop p xs
  drop-drop m zero p xs e = ap (λ k. drop k xs) (omega (arith, e))
  drop-drop m (suc n) zero xs e = absurd (omega (arith, e))
  drop-drop m (suc n) (suc p) [] e = drop-nil m [] refl
  drop-drop m (suc n) (suc p) (x ∷ xs) e = drop-drop m n p xs (omega (arith, e))

  -- The next part after the first `m` items, up to the first `n`.
  take-next : (m n k : ℕ) (xs : List A) → n ≡ m + k → take m xs ++ take k (drop m xs) ≡ take n xs
  take-next zero n k xs e = ap (λ i. take i xs) (omega (arith, e))
  take-next (suc m) zero k xs e = absurd (omega (arith, e))
  take-next (suc m) (suc n) zero [] e = refl
  take-next (suc m) (suc n) (suc k) [] e = refl
  take-next (suc m) (suc n) k (x ∷ xs) e = ap (λ ys. x ∷ ys) (take-next m n k xs (omega (arith, e)))

  length-drop : (n : ℕ) (xs : List A) → length (drop n xs) ≡ length xs - n
  length-drop zero xs = omega arith
  length-drop (suc n) [] = omega arith
  length-drop (suc n) (x ∷ xs) = omega (arith, length-drop n xs)

length-take : {A : Type 0} (n : ℕ) (xs : List A) → n ≤ length xs → length (take n xs) ≡ n
length-take zero xs h = omega arith
length-take (suc n) [] h = omega (arith, h)
length-take (suc n) (x ∷ xs) h = omega (arith, length-take n xs (omega (arith, h)))

-- What was folded before and what is folded now are, together, the first messages of the conversation.
abbrev pub IsTiled : List ChatMessage → Summary → Summary × List ChatMessage → Type 0
IsTiled full old (new, older) =
    (take old.through_message_count full ++ older ≡ take new.through_message_count full)
    × (old.through_message_count ≤ new.through_message_count)
    × (new.through_message_count ≤ length full)

module _ (text_length : String → ℕ) (slice : ℕ → String → String)
    (sanitize trim : String → String) where
  -- The messages that are folded follow those that were folded before, and the text folds them.
  next_summary-next :
      (full : List ChatMessage) (start : ℕ) (summary : Summary) (recent_window : ℕ) (now : String)
      → start ≤ summary.through_message_count
      → summary.through_message_count ≤ length full
      → let (next, older) =
          next_summary text_length slice sanitize trim summary
            (drop start full)
            (length full)
            recent_window
            now in
        IsTiled full summary (next, older)
        × IsRecap text_length slice sanitize trim summary.text older next.text
  unfolding next_summary
  next_summary-next full start summary recent_window now reach within =
      by_folds (folds (window_start - fold_from) summary.text) refl
    where
      window_start : ℕ
      window_start = length full - recent_window

      fetch_start : ℕ
      fetch_start = length full - length (drop start full)

      fold_from : ℕ
      fold_from = max summary.through_message_count fetch_start

      older : List ChatMessage
      older = take (window_start - fold_from) (drop (fold_from - fetch_start) (drop start full))

      fetched : fetch_start ≡ start
      fetched = omega (arith, length-drop start full, reach, within)

      from : fold_from ≡ summary.through_message_count
      from = omega (arith, fetched, reach)

      tiles :
          summary.through_message_count ≤ window_start
          → take summary.through_message_count full ++ older ≡ take window_start full
      tiles le =
          ap (λ xs. take summary.through_message_count full ++ take (window_start - fold_from) xs)
            (drop-drop (fold_from - fetch_start) start summary.through_message_count full
              (omega (arith, fetched, from, reach)))
          ∙ take-next summary.through_message_count window_start (window_start - fold_from) full
              (omega (arith, from, le))

      some_older : 1 ≤ window_start - fold_from → 1 ≤ length older
      some_older h = omega (
        arith,
        h,
        length-take (window_start - fold_from) (drop (fold_from - fetch_start) (drop start full)) (
            omega (
              arith,
              length-drop (fold_from - fetch_start) (drop start full),
              length-drop start full,
              fetched,
              from,
              reach,
            )),
      )

      by_folds :
          (b : Bool)
          → folds (window_start - fold_from) summary.text ≡ b
          → let (next, taken) =
              if◌then◌else◌ {A = Summary × List ChatMessage} b
                (
                  record {
                    text = fold_summary text_length slice sanitize trim summary.text older 1200;
                    through_message_count = window_start;
                    updated_at = some now;
                  },
                  older,
                )
                (summary, []) in
            IsTiled full summary (next, taken)
            × IsRecap text_length slice sanitize trim summary.text taken next.text
      by_folds true e =
          let later : summary.through_message_count ≤ window_start = ground (arith, e, from) in
          (
            (tiles later, later, omega arith),
            fold_summary-IsRecap text_length slice sanitize trim summary.text older
                (some_older (ground (arith, e))),
          )
      by_folds false e =
          ((append-nil (take summary.through_message_count full), omega arith, within), refl)

  module _ (is_valid_patch : ConversationStatePatch → Bool) where
    fold_summary-le :
        (previous : String) (older : List ChatMessage) (limit : ℕ)
        → ((n : ℕ) (t : String) → text_length (slice n t) ≤ n)
        → text_length (fold_summary text_length slice sanitize trim previous older limit) ≤ limit
    unfolding fold_summary
    fold_summary-le previous older limit slice-le = by_length _
      where
        by_length :
            (folded : String)
            → text_length (if ltb limit (text_length folded) then slice limit folded else folded)
              ≤ limit
        by_length folded = ground (arith, slice-le limit folded)

    next_summary-le :
        (summary : Summary) (history : List ChatMessage) (before recent_window : ℕ) (now : String)
        → ((n : ℕ) (t : String) → text_length (slice n t) ≤ n)
        → text_length summary.text ≤ 1200
        → text_length
            (next_summary text_length slice sanitize trim summary history before recent_window
              now).0.text
          ≤ 1200
    unfolding next_summary
    next_summary-le summary history before recent_window now slice-le fits = by_folds _ _
      where
        by_folds :
            (b : Bool) (older : List ChatMessage)
            → text_length
                (if◌then◌else◌ {A = Summary × List ChatMessage} b
                  (
                    record {
                      text = fold_summary text_length slice sanitize trim summary.text older 1200;
                      through_message_count = before - recent_window;
                      updated_at = some now;
                    },
                    older,
                  )
                  (summary, [])).0.text
              ≤ 1200
        by_folds true older = fold_summary-le summary.text older 1200 slice-le
        by_folds false older = fits

    -- Where the schema accepts this turn's update with any summary of at most 1200 characters and all
    -- messages, the state has counted all messages and its summary is within that limit, and the history
    -- that is fetched reaches back to what was folded before, the update succeeds. The messages that it folds continue those folded before: together they are the first
    -- messages of the conversation, none left out or folded twice. The summary's text is what it was
    -- if none is folded; else it is that of the earlier text and one line for each folded message, of
    -- which the first ones are dropped while the text is too long, and never the last. It stays
    -- within its limit.
    pub update_memory-IsTiled :
        (full : List ChatMessage) (start : ℕ) (state : ConversationState) (recent_window : ℕ)
        (decision : EscalationDecision) (unanswered : Bool) (now : String)
        → ((n : ℕ) (t : String) → text_length (slice n t) ≤ n)
        → ((summary : Summary)
            → text_length summary.text ≤ 1200
            → summary.through_message_count ≤ length full
            → is_valid_patch (memory_patch state decision unanswered now (length full) summary)
              ≡ true)
        → text_length state.summary.text ≤ 1200
        → state.messages_observed ≡ length full
        → start ≤ state.summary.through_message_count
        → state.summary.through_message_count ≤ length full
        → (u : MemoryUpdate) × (update_memory text_length slice sanitize trim is_valid_patch state
              (drop start full)
              recent_window
              decision
              unanswered
              now
            ≡ some u)
          × IsTiled full state.summary (u.state.summary, u.folded_messages)
          × IsRecap text_length slice sanitize trim state.summary.text u.folded_messages
              u.state.summary.text
          × (text_length u.state.summary.text ≤ 1200)
          × (u.state.messages_observed ≡ length full + 2)
    unfolding update_memory update_after apply_state_patch patched
    update_memory-IsTiled full start state recent_window decision unanswered now slice-le accepts
          fits observed reach within =
        by_count (max state.messages_observed (length (drop start full)))
          (omega (arith, observed, length-drop start full))
      where
        history : List ChatMessage
        history = drop start full

        next : Summary × List ChatMessage
        next =
            next_summary text_length slice sanitize trim state.summary history (length full)
              recent_window now

        patch : ConversationStatePatch
        patch = memory_patch state decision unanswered now (length full) next.0

        short : text_length next.0.text ≤ 1200
        short = next_summary-le state.summary history (length full) recent_window now slice-le fits

        by_count :
            (before : ℕ)
            → before ≡ length full
            → (u : MemoryUpdate) × (update_after text_length slice sanitize trim is_valid_patch
                  state history recent_window decision unanswered now before
                ≡ some u)
              × IsTiled full state.summary (u.state.summary, u.folded_messages)
              × IsRecap text_length slice sanitize trim state.summary.text u.folded_messages
                  u.state.summary.text
              × (text_length u.state.summary.text ≤ 1200)
              × (u.state.messages_observed ≡ length full + 2)
        by_count before e =
            let (tiled, recap) =
              next_summary-next full start state.summary recent_window now reach within in
            (
              record { state = patched state patch; folded_messages = next.1 },
              ap
                    (update_after text_length slice sanitize trim is_valid_patch state history
                      recent_window decision unanswered now)
                    e
                  ∙ rw (accepts next.0 short tiled.2) refl,
              tiled,
              recap,
              short,
              refl,
            )
