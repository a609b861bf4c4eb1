-- ===== src/Lib.antt =====
-- The AI receptionist: a library that states and proves what the core of the program promises.
--
-- The program answers visitors and callers for a business. A conversation qualifies the caller
-- (packages/qualification), may negotiate within a policy of the business (packages/negotiation),
-- books appointments (packages/scheduling), may let the model call tools (packages/runtime), runs
-- over a voice channel (packages/voice), and emits events that drive the business's workflows
-- (packages/workflows). Models answer through a router with fallbacks (packages/providers), campaigns
-- call out (packages/campaigns), and the public endpoints are behind a rate limiter (packages/platform).
--
-- Files, and the code that each models:
--   Base            names and lemmas that all share: Boolean tests, lists, dictionaries, sorting.
--   Scheduling      Status: packages/scheduling/appointment-state.ts; its children state what the
--                   transition table means for the life of an appointment. Timezone:
--                   packages/scheduling/timezone.ts over the clock that Intl shows.
--                   Availability: packages/scheduling/availability.ts, every loop of
--                   generateSlots; Parts, Openings and Order are its lemmas. Booking:
--                   packages/scheduling/booking-draft.ts and the decision to book or to ask in
--                   booking-orchestrator.ts, which takes the slots of Availability. Reminders:
--                   packages/scheduling/reminder-service.ts, one row over its runs.
--   Voice           CallState: packages/voice/call-state.ts, with the breadth-first search of
--                   pathToCallState. Endpointer: packages/voice/endpointer.ts. CallStore:
--                   packages/voice/in-memory-call-store.ts, its methods as functions on the
--                   store, and their calls as steps. Audio: packages/voice/audio.ts, the
--                   mu-law codec, and in Audio/Queue the BoundedAudioQueue.
--   Runtime         State: packages/runtime/conversation-state.ts. Tools:
--                   packages/runtime/tools/boundary.ts. Turn: the loop over the model's tool
--                   calls in packages/runtime/agent-runtime.ts, which calls the functions of
--                   Tools in each round and changes the state through those of State. Memory:
--                   memory-manager.ts, which patches the state at the end of a turn. Text: texts
--                   as their code units, for the next three. Assembler:
--                   packages/runtime/response-assembler.ts. Validator: response-validator.ts.
--                   Speech: speech-stream.ts, the stream of one turn, which feeds the model's
--                   deltas to Assembler and what comes out to Validator before it is heard.
--   Providers       Router: complete of packages/providers/llm/fallback-router.ts.
--   Campaigns       packages/campaigns/engine.ts, a batch over any store and dialer.
--   Lifecycle       packages/lifecycle/lifecycle-service.ts and no-show-sweep.ts, which moves
--                   appointments by the table of Scheduling.Status.
--   Platform        RateLimit: packages/platform/rate-limit.ts; a call of check takes the time.
--   Negotiation     Policy, Authorization, Objections, Catalog and Session: packages/negotiation,
--                   policy.ts, authorization.ts, objections.ts (Objections and Catalog), and the
--                   state of system-action.ts and tool.ts.
--                   A session is a sequence of caller turns and proposals of the model; every
--                   proposal goes through authorize_concession, which is authorizeConcession.
--   Qualification   Snapshot, Schema and Engine: packages/qualification/schema.ts and engine.ts;
--                   apply_utterance is applyUtterance. Disposition: disposition.ts.
--   Workflow        Run and Engine: packages/workflows/engine.ts, a run over all its attempts,
--                   and the delivery of events over the table of runs, whose createRun is
--                   taken by its contract: one run for a workflow and an event (the unique
--                   constraint of supabase/migrations/0009_workflows.sql).
--   Examples        each property at a concrete input.
--
-- State is passed explicitly: an operation takes the state and returns the new one, with what it
-- returns or emits. Objects keyed by id are association lists. Names are the source's, in snake
-- case.
--
-- Bounds and fuel: the search of path_to_call_state has fuel 15, one more than there are call
-- states, which is proved enough; the loop over the starts of a day has fuel day_fuel, which is
-- proved enough where a slot lasts some time (with slots of no length the source loops forever);
-- the loop of the assembler's push has the length of its buffer, which is proved enough; all other
-- loops are recursions on lists or on the number of attempts, rounds or days left. The
-- offset of a zone is counted in seconds from 24 hours behind UTC. Amounts, percentages and times
-- are whole numbers; confidences are hundredths.
--
-- Parameters: what a language pack reads out of a text and extractValue (packages/language), text
-- normalisation and inclusion in the matching of objections, zod's safeParse, the executors of
-- workflow actions with their timeout, the conditions of a workflow, the duration and loudness of
-- an audio frame, fresh ids, the wall clock of a time zone, the model's tool calls, the schemas,
-- preconditions and executors of tools, the recognition of a yes, the hash of an idempotency key,
-- the patterns of claims, markdown and languages in the response validator, JavaScript's toLowerCase
-- and trim and the texts of dates and times, the answers of model providers, of the store and the
-- dialer of a campaign, and of the services that a reminder needs.
--
-- Not modelled: prompts, model calls and rendered texts, what the booking conversation reads out of
-- a message, the booking service, the database behind the stores, adapters of providers, the media
-- session, and the web application: they are rendering, regular expressions, queries and calls of
-- other services, or large parts whose logic has no model here yet.
pub mod Base
pub mod Campaigns
pub mod Examples
pub mod Lifecycle
pub mod Negotiation
pub mod Platform
pub mod Providers
pub mod Qualification
pub mod Runtime
pub mod Scheduling
pub mod Voice
pub mod Workflow
