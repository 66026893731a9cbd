-- ===== src/Examples/BatchRuns.antt =====
-- src/generation.cpp: the batcher, run with a small engine.
use adi.Base.{
  ℕ, ◌-◌, ◌*◌, ◌≤◌, ◌≡◌, refl, if◌then◌else◌, true, false, List, [], ◌∷◌, some, arith, All, concat,
  map, length, length-replicate, replicate, list_eq,
}
use adi.Base.Result.{ok, holds}
use adi.Base.Text.{codes}
use adi.Generation.Engine.{Engine, Request}
use adi.Generation.Prefill.{prompt_chunks}
use adi.Generation.Prefill.Chunks.{prompt_chunks-concat, IsChunk, only_last_final}
use adi.Generation.Batch.{
  Polls, Event, submitted, round, Batcher, idle, run, happen, happen_all, admit_pending,
}
use adi.Generation.Batch.Count.{answered}
use adi.Generation.Batch.Steps.{EngineLaws, IsInStep, happen-IsInStep}
use adi.Generation.Batch.Once.{submissions, run-answered}
use adi.Generation.Batch.Limits.{AreWithin}
use adi.Generation.Batch.Ends.{run-AreWithin, happen_all-answered}

prompt_chunks-concat_example :
    (concat (map (λ chunk. chunk.0) (prompt_chunks 2 (5 ∷ 6 ∷ 7 ∷ []))) ≡ 5 ∷ 6 ∷ 7 ∷ [])
    × All (IsChunk 2) (prompt_chunks 2 (5 ∷ 6 ∷ 7 ∷ []))
    × (only_last_final (prompt_chunks 2 (5 ∷ 6 ∷ 7 ∷ [])) ≡ true)
prompt_chunks-concat_example = prompt_chunks-concat 2 (5 ∷ 6 ∷ 7 ∷ []) (omega arith)

-- An engine with two logits, which counts down from its seed.
abbrev countdown : Engine
countdown = record {
  State = Unit {0};
  Scratch = Unit {0};
  Random = ℕ;
  initial_state = tt;
  initial_scratch = tt;
  initial_logits = 0 ∷ 0 ∷ [];
  seeded = λ seed. seed;
  context = 8;
  vocabulary = 2;
  eos_token = 0;
  encode = λ polls text. ok (if list_eq text (codes "<|im_end|>") then 1 ∷ [] else (5 ∷ 6 ∷ []));
  prefill = λ tokens state logits. ok (state, logits);
  mask_unused_logits = λ logits. logits;
  sample_token = λ logits temperature top_p random. ok (random, random - 1);
  token_text = λ token. ok (token ∷ []);
  decode = λ tokens. ok tokens;
  decode_batch = λ tokens states scratches. ok (states, scratches, replicate (length tokens * 2) 0);
}

countdown-laws : EngineLaws countdown
countdown-laws = record {
  length-initial_logits = refl;
  length-mask = λ logits. refl;
  length-prefill = λ tokens state logits. holds refl;
  length-decode_batch =
      λ tokens states scratches. holds (refl, refl, length-replicate (length tokens * 2) 0);
}

abbrev request_from : ℕ → ℕ → Request
request_from address seed = record {
  address = address;
  prompt = codes "hi";
  options = record { max_output_tokens = some 2; temperature = 0; top_p = 0; seed = seed };
  stream_tokens = true;
}

abbrev no_polls : Polls
no_polls = record { at_start = false; encoding = λ poll. false; prefilling = λ poll. false }

abbrev go_on : Event
go_on = round no_polls (λ address. false)

-- The second request is submitted after a round of the first; a third one is never admitted.
abbrev session : List Event
session =
    submitted (request_from 10 4)
    ∷ go_on
    ∷ submitted (request_from 20 2)
    ∷ go_on
    ∷ go_on
    ∷ submitted (request_from 30 3)
    ∷ []

session-once : (address : ℕ) → submissions address session ≤ 1
session-once address = ground arith

run-answered_example : answered 20 ((run countdown 512 session).answers) ≡ submissions 20 session
run-answered_example = run-answered countdown countdown-laws 512 session session-once 20

run-AreWithin_example : AreWithin 8 (run countdown 512 session)
run-AreWithin_example = run-AreWithin countdown 512 session (omega arith)

happen-IsInStep_example :
    IsInStep countdown countdown-laws ((happen countdown 512 1 go_on (idle countdown)).batch)
    × IsInStep countdown countdown-laws (
        (admit_pending countdown 512 no_polls
          (happen countdown 512 1 go_on (idle countdown))).batch)
happen-IsInStep_example =
    happen-IsInStep countdown countdown-laws 512 1 go_on no_polls (idle countdown)
      (refl, refl, refl)

-- A request in progress that may generate two tokens.
abbrev in_progress : Batcher countdown
in_progress = record {
  pending = [];
  batch = record {
    active =
        record {
          request = request_from 10 4;
          input_tokens = 2;
          max_output_tokens = 2;
          output_tokens = [];
          random = 4;
        }
        ∷ [];
    states = tt ∷ [];
    scratches = tt ∷ [];
    logits = 0 ∷ 0 ∷ [];
  };
  log = record { answers = []; pieces = []; finished_streams = [] };
}

happen_all-answered_example :
    answered 10 (
      (happen_all countdown 512 1
        (go_on ∷ submitted (request_from 20 2) ∷ go_on ∷ [])
        in_progress).log.answers)
    ≡ 1
happen_all-answered_example =
    happen_all-answered countdown countdown-laws 512 1
      (go_on ∷ submitted (request_from 20 2) ∷ go_on ∷ []) in_progress 10 (omega arith)
      (refl, refl, refl) (tt, ((omega arith, omega arith), tt)) (λ address. ground arith) refl refl
      (omega arith)
