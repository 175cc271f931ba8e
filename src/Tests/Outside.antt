-- ===== src/Tests/Outside.antt =====
-- Tests of app/tools, app/core/timeout.py and app/services.
use agentic_rag.Prelude.{
  String, ◌&&◌, ℕ, suc, none, ◌+◌, ◌*◌, ◌≡◌, refl, true, false, some, List, [], ◌∷◌, arith, ltb,
  ◌==◌,
}
use agentic_rag.Core.Errors.{ok, raise, connection_error}
use agentic_rag.Core.Exec.{Exec}
use agentic_rag.Core.TtlCache.{TtlCache, init}
use agentic_rag.Core.Timeout.{
  Event, sends, response_start, deadline_passes, cancellation_arrives, respond,
}
use agentic_rag.Core.Timeout.Responses.{begins_in_time, IsAnswered, respond-IsAnswered}
use agentic_rag.Services.Embeddings.{Client, EmbeddingService, Cached, embed_text}
use agentic_rag.Services.Embeddings.Kept.{after_calls}
use agentic_rag.Services.Embeddings.Once.{IsLoaded, loaded, embed_text-once}
use agentic_rag.Agents.Services.Dependable.{IsDependable, Anything}
use agentic_rag.Services.Chat.{
  text_block, dict_block, block_content, ChatMessage, ChatClient, ChatService, Envelope, complete,
  structured,
}
use agentic_rag.Services.Chat.Dependable.{structured-IsDependable}
use agentic_rag.Tools.Calculator.{
  BinaryOp, op_add, op_mult, OpResult, value, not_real, Numbers, Node, number, binary, evaluate,
}
use agentic_rag.Tools.Calculator.Checked.{IsChecked, evaluate-IsChecked}

-- whole numbers, with powers left without a result
abbrev apply : BinaryOp → ℕ → ℕ → OpResult ℕ
apply op_add x y = value (x + y)
apply op_mult x y = value (x * y)
apply _ x y = not_real

abbrev numbers : Numbers
numbers = record {
  Number = ℕ;
  apply = apply;
  negate = λ v. v;
  abs_exceeds = λ v n. ltb n v;
  is_nan = λ v. false;
  is_inf = λ v. v == 1000;
  is_integer = λ v. true;
  int_text = λ v. "n";
  general_text = λ v. "n";
}

-- (3 * 4) + 5
abbrev sum : Node ℕ
sum = binary op_add (binary op_mult (number 3) (number 4)) (number 5)

evaluate-IsChecked_example : IsChecked numbers sum (evaluate numbers sum)
evaluate-IsChecked_example = evaluate-IsChecked numbers sum (λ v h. h) ((refl, refl), refl)

-- a handler that starts to answer after its deadline, before the cancellation reaches it
abbrev late_start : List Event
late_start = deadline_passes ∷ sends (response_start 200) ∷ cancellation_arrives ∷ []

respond-IsAnswered_example :
    IsAnswered (respond late_start)
    × ((begins_in_time late_start && (respond late_start).cancelled_caught) ≡ false)
respond-IsAnswered_example = respond-IsAnswered late_start (refl, tt)

-- a world that is its clock, with a provider that takes two ticks
abbrev client : Client ℕ ℕ
client = record {
  embed_documents = λ texts now. (ok [], now + 2);
  embed_query = λ text now. (ok 7, now + 2);
}

abbrev service : EmbeddingService ℕ ℕ
service = record { model = "m"; client = some client; now = λ w. w; is_provider_error = λ x. true }

abbrev cold : Cached ℕ ℕ
cold = record { cache = init 4 10; world = 0 }

cold-IsLoaded : IsLoaded service "leave" cold 7 2
unfolding agentic_rag.Core.TtlCache.enabled init agentic_rag.Core.TtlCache.read agentic_rag.Dict.get
    agentic_rag.Services.Embeddings.embed_query
cold-IsLoaded = record { active = refl; absent = refl; called = refl }

-- two calls for other texts, the later one first
abbrev other_calls : List (String × ℕ)
other_calls = ("travel", 5) ∷ ("sick", 3) ∷ []

embed_text-once_example :
    (embed_text service "leave" cold ≡ (ok 7, loaded service "leave" cold 7 2))
    × ((embed_text service "leave"
          (record (after_calls service "leave" other_calls (loaded service "leave" cold 7 2)) {
            world = 9;
          })).0
        ≡ ok 7)
    × ((embed_text service "leave"
          (record (after_calls service "leave" other_calls (loaded service "leave" cold 7 2)) {
            world = 9;
          })).1.world
        ≡ 9)
unfolding init
embed_text-once_example =
    embed_text-once service "leave" cold 7 2 9 other_calls cold-IsLoaded
      ((λ e. cc e), ((λ e. cc e), tt)) (omega arith) (omega arith)

-- a client that answers in blocks, and whose structured replies are refused by the provider
abbrev blocks_client : ChatClient ℕ
blocks_client = record {
  ainvoke = λ messages n. (ok (block_content (text_block "21" ∷ dict_block none ∷ [])), suc n);
}

abbrev refused : ChatClient ℕ → List ChatMessage → Exec ℕ (Envelope ℕ)
refused c messages n = (raise connection_error, suc n)

abbrev chat : ChatService ℕ
chat = record {
  client = some blocks_client;
  is_provider_error = λ x. true;
  is_schema_error = λ x. false;
}

structured-IsDependable_example :
    IsDependable Anything (complete chat "system" "user")
    × IsDependable Anything (structured chat refused "system" "user")
structured-IsDependable_example =
    structured-IsDependable chat refused blocks_client "system" "user" refl
      (record { named_one = λ w x e. refl }) (record { named_one = λ w x e. refl })
