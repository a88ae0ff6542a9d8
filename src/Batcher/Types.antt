-- ===== src/Batcher/Types.antt =====
-- internal/batcher/batcher.go: the types. A result channel is a number, and what is sent on the
-- channels is a log, oldest first; a request's context is a handle, `none` for a nil context.
use distri_inference_sidecar.Prelude.{ℕ, List, [], ◌++◌, ◌∷◌, Option, Bytes}
use distri_inference_sidecar.Prelude.Int.{ℤ}
use distri_inference_sidecar.Errors.{GoError}
use distri_inference_sidecar.Metrics.{Metrics}

-- The debug fields only switch a log line on and are left out.
pub record Config : Type 0 where
  pub max_batch_size : ℤ
  pub max_wait_ms : ℤ
  pub backend_url : Bytes
  pub backend_timeout_ms : ℤ

pub record Request : Type 0 where
  pub id : Bytes
  pub input_data : Bytes
  pub model_name : Bytes
  pub ctx : Option ℕ
  pub result_ch : ℕ

pub record Result : Type 0 where
  pub output_data : Bytes
  pub latency_ms : ℕ
  pub err : Option GoError

-- One `ResultCh <- result`.
abbrev pub Delivery : Type 0
Delivery = ℕ × Result

-- What the batcher's goroutines write: the collectors, and the result channels.
pub record Out : Type 0 where
  pub metrics : Metrics
  pub sent : List Delivery

pub record SingleReq : Type 0 where
  pub id : Bytes
  pub input_data : Bytes
  pub model_name : Bytes

pub record SingleResult : Type 0 where
  pub id : Bytes
  pub output_data : Bytes
  pub error : Bytes

-- A response body: the bytes that can be read, and the error that ends them, if any.
pub record Body : Type 0 where
  pub bytes : Bytes
  pub read_err : Option GoError

pub record Response : Type 0 where
  pub status_code : ℤ
  pub body : Body

abbrev pub send : Out → ℕ → Result → Out
send out ch r = record out { sent = out.sent ++ (ch, r) ∷ [] }
