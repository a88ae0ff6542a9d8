-- ===== src/Tests/Samples.antt =====
-- Data for the tests: a batch with two requests that share an ID, and a backend that answers one
-- of them, an unknown ID, and the third request with an error.
use mathlib.Core.List.Perm
use distri_inference_sidecar.Prelude.{
  ℕ, zero, suc, Option, none, some, List, [], ◌∷◌, Bytes, codes, Perm,
}
use distri_inference_sidecar.Prelude.Int.{pos}
use distri_inference_sidecar.Errors.{GoError, ok, err, sentinel, canceled, plain}
use distri_inference_sidecar.Metrics
use distri_inference_sidecar.Batcher.Types.{Config, Request, Out, SingleResult, Response}
use distri_inference_sidecar.Batcher.ReqMap.{ReqMap}
use distri_inference_sidecar.Batcher.Flush.{Env}

abbrev pub config : Config
config = record {
  max_batch_size = pos 2;
  max_wait_ms = pos 50;
  backend_url = codes "http://b/infer";
  backend_timeout_ms = pos 120000;
}

abbrev pub request : Bytes → ℕ → Request
request id ch = record {
  id = id;
  input_data = codes "hi";
  model_name = codes "m";
  ctx = some ch;
  result_ch = ch;
}

abbrev pub first : Request
first = request (codes "a") 1

abbrev pub second : Request
second = request (codes "a") 2

abbrev pub third : Request
third = request (codes "b") 3

-- The context of channel 4 is cancelled.
abbrev pub gone : Request
gone = request (codes "c") 4

abbrev pub batch : List Request
batch = first ∷ gone ∷ second ∷ third ∷ []

abbrev single : Bytes → Bytes → Bytes → SingleResult
single id output error = record { id = id; output_data = output; error = error }

abbrev results : List SingleResult
results =
    single (codes "b") [] (codes "oom")
    ∷ single (codes "x") (codes "?") []
    ∷ single (codes "a") (codes "hello") []
    ∷ []

abbrev response : Response
response = record { status_code = pos 200; body = record { bytes = codes "{}"; read_err = none } }

abbrev context_err : ℕ → Option GoError
context_err c = elim c [ suc (suc (suc (suc zero))) ↦ some (sentinel canceled) | _ ↦ none ]

abbrev pub env : Env
env = record {
  ctx_err = context_err;
  marshal = λ reqs. ok (codes "{}");
  request_err = λ url body. none;
  post = λ url body. ok response;
  latency_ms = 7;
  decode = λ body. ok results;
  ranged = λ m. m;
}

pub env_ranged : (m : ReqMap) → Perm (env.ranged m) m
env_ranged m = Perm.refl m

-- The same environment with a backend that cannot be reached.
abbrev pub down : Env
down = record env { post = λ url body. err (plain (codes "refused")) }

abbrev pub empty : Out
empty = record { metrics = Metrics.new; sent = [] }
